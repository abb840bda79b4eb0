-- ===== src/Export/Tests.antt =====
-- A table with a comma and quotes in its values.
use etl_nexus.Common.{[], ◌∷◌, none, some, codes, map, ◌++◌, ◌≡◌, refl}
use etl_nexus.Export.{Row, keys, cell_of, CsvFile, download_as_csv}
use etl_nexus.Export.Parsing.{parse, start}
use etl_nexus.Export.Reading.{download_as_csv-read}

abbrev logins : Row
logins = (codes "name", some (codes "a,\"b\"")) ∷ (codes "rows", none) ∷ []

abbrev events : Row
events = (codes "rows", some (codes "7")) ∷ []

events_file :
    download_as_csv (events ∷ []) (codes "events")
    ≡ some (record {
      filename = codes "events.csv";
      mime = codes "text/csv;charset=utf-8";
      content = codes "rows\n7";
    })
unfolding download_as_csv
events_file = refl

download_as_csv-read_example :
    (file : CsvFile) × (download_as_csv (logins ∷ events ∷ []) (codes "day") ≡ some file)
    × (file.filename ≡ codes "day" ++ codes ".csv")
    × (parse start file.content
        ≡ keys logins ∷ map (λ row. map (cell_of row) (keys logins)) (logins ∷ events ∷ []))
unfolding keys
download_as_csv-read_example =
    download_as_csv-read logins (events ∷ []) (codes "day") (λ e. cc) refl
