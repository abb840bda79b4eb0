-- ===== src/Products/Editing.antt =====
-- Saving and deleting a product.
use etl_nexus.Common.{false, String, List, [], Option, ◌≡◌, arith}
use etl_nexus.Products.{
  EditForm, PatchBody, Answer, done, refused, patch_body, save, click_delete, err_toast,
}

module _ {ℓ} {S : Type ℓ} where
  -- If the fields are saved and the tables are refused, the server keeps the fields, and the
  -- modal stays open without a query being fetched again.
  pub save_partial :
      (patch : PatchBody → S → Answer S) (put_tables : List String → S → Answer S)
      (trim : String → String) (form : EditForm) (s patched after : S) (detail : Option String)
      → patch (patch_body trim form) s ≡ done patched
      → put_tables form.tables patched ≡ refused detail after
      → ((save patch put_tables trim form s).0 ≡ after)
        × (((save patch put_tables trim form s).1.closed ≡ false)
            × ((save patch put_tables trim form s).1.invalidated ≡ []))
  unfolding save err_toast
  save_partial patch put_tables trim form s patched after detail first second = ground arith

  -- A first click on the delete button deletes nothing; the second one does what the server does,
  -- and closes the modal and takes the selection back just if the product is deleted.
  pub click_delete_confirmed :
      (delete_product : S → Answer S) (form : EditForm) (s after : S)
      → form.confirm_delete ≡ false
      → delete_product s ≡ done after
      → ((click_delete delete_product form s).1.0 ≡ s)
        × ((click_delete delete_product (click_delete delete_product form s).0 s).1.0 ≡ after)
  unfolding click_delete
  click_delete_confirmed delete_product form s after fresh deleted = ground arith
