-- ===== src/Products/Creating.antt =====
-- What the form of a new product sends.
use etl_nexus.Common.{
  Bool, true, false, not, ◌||◌, String, List, [], ◌∷◌, Option, none, some, non_empty, is_some, ◌≡◌,
  refl, ◌∙◌, arith, Bool-cases, inl, inr,
}
use etl_nexus.Products.{
  CreateForm, CreateRequest, create_request, must_choose_team, can_create, click_create,
  create_settled, click_cancel, or_null,
}

-- the requests that are not settled, after a click that may have sent another
abbrev sent_before : Option CreateRequest → List CreateRequest → List CreateRequest
sent_before none waiting = waiting
sent_before (some request) waiting = request ∷ waiting

module _ (trim : String → String) (user_teams : List String) where
  -- What happens at the modal, with the requests that are not settled yet. Whatever the fields are
  -- set to, the call stays pending or not; closing the modal does not unmount it.
  pub data CreateRun : CreateForm → List CreateRequest → Type 0 where
    mounted : (form : CreateForm) → form.is_pending ≡ false → CreateRun form []
    edited :
        {form : CreateForm} {waiting : List CreateRequest} (changed : CreateForm)
        → CreateRun form waiting
        → changed.is_pending ≡ form.is_pending
        → CreateRun changed waiting
    cancelled :
        {form : CreateForm} {waiting : List CreateRequest}
        → CreateRun form waiting
        → CreateRun (click_cancel form) waiting
    clicked :
        {form : CreateForm} {waiting : List CreateRequest}
        → CreateRun form waiting
        → CreateRun
            (click_create trim user_teams form).1
            (sent_before (click_create trim user_teams form).0 waiting)
    settled :
        {form : CreateForm} {request : CreateRequest} {waiting : List CreateRequest}
        (succeeded : Bool)
        → CreateRun form (request ∷ waiting)
        → CreateRun (create_settled succeeded form) waiting

  -- The name is not blank, and a team is given if the user belongs to several.
  pub record IsComplete (request : CreateRequest) : Type 0 where
    pub named : non_empty (trim request.name) ≡ true
    pub owned : not (must_choose_team user_teams) || is_some request.team ≡ true

  -- At most one request is not settled, and the form is pending just then.
  abbrev pub IsSingle : CreateForm → List CreateRequest → Type 0
  IsSingle form [] = form.is_pending ≡ false
  IsSingle form (request ∷ []) = (form.is_pending ≡ true) × IsComplete request
  IsSingle form (request ∷ other ∷ rest) = ⊥

or_null-is_some : (text : String) → is_some (or_null text) ≡ non_empty text
or_null-is_some text = ground arith

IsSingle-same :
    (trim : String → String) (user_teams : List String) (form changed : CreateForm)
    (waiting : List CreateRequest)
    → changed.is_pending ≡ form.is_pending
    → IsSingle trim user_teams form waiting
    → IsSingle trim user_teams changed waiting
IsSingle-same trim user_teams form changed [] e h = e ∙ h
IsSingle-same trim user_teams form changed (request ∷ []) e (h, k) = (e ∙ h, k)
IsSingle-same trim user_teams form changed (request ∷ other ∷ rest) e h = h

create_request-IsComplete :
    (trim : String → String) (user_teams : List String) (form : CreateForm)
    → can_create trim user_teams form ≡ true
    → IsComplete trim user_teams (create_request form)
unfolding can_create create_request
create_request-IsComplete trim user_teams form enabled = record {
  named = ground arith;
  owned = ground (arith, or_null-is_some form.team);
}

-- while a request is not settled the button is disabled
can_create-pending :
    (trim : String → String) (user_teams : List String) (form : CreateForm)
    → form.is_pending ≡ true
    → can_create trim user_teams form ≡ false
unfolding can_create
can_create-pending trim user_teams form e = ground arith

module _ (trim : String → String) (user_teams : List String) where
  abbrev IsSingleAfterClick : CreateForm → List CreateRequest → Type 0
  IsSingleAfterClick form waiting =
      IsSingle trim user_teams (click_create trim user_teams form).1
        (sent_before (click_create trim user_teams form).0 waiting)

  click_create-ignored :
      (form : CreateForm) (waiting : List CreateRequest)
      → can_create trim user_teams form ≡ false
      → IsSingle trim user_teams form waiting
      → IsSingleAfterClick form waiting
  unfolding click_create
  click_create-ignored form waiting disabled h = rw disabled h

  click_create-sent :
      (form : CreateForm) → can_create trim user_teams form ≡ true → IsSingleAfterClick form []
  unfolding click_create
  click_create-sent form enabled =
      rw enabled (refl, create_request-IsComplete trim user_teams form enabled)

  click_create-IsSingle :
      (form : CreateForm) (waiting : List CreateRequest)
      → IsSingle trim user_teams form waiting
      → IsSingleAfterClick form waiting
  click_create-IsSingle form [] h = elim (Bool-cases (can_create trim user_teams form)) [
    | inl enabled ↦ click_create-sent form enabled
    | inr disabled ↦ click_create-ignored form [] disabled h
  ]
  click_create-IsSingle form (request ∷ []) h =
      click_create-ignored form (request ∷ []) (can_create-pending trim user_teams form h.0) h
  click_create-IsSingle form (request ∷ other ∷ rest) h = absurd h

  create_settled-IsSingle :
      (succeeded : Bool) (form : CreateForm) (request : CreateRequest)
      (waiting : List CreateRequest)
      → IsSingle trim user_teams form (request ∷ waiting)
      → IsSingle trim user_teams (create_settled succeeded form) waiting
  unfolding create_settled
  create_settled-IsSingle true form request [] h = refl
  create_settled-IsSingle false form request [] h = refl
  create_settled-IsSingle succeeded form request (other ∷ rest) h = absurd h

  -- Whatever is typed and chosen, cancelled, clicked and settled before, for a user of given teams: at
  -- most one request is sent and not settled, the form is pending just then, and that request is
  -- complete, with a name that is not blank, and with a team if the user belongs to several.
  pub CreateRun-IsSingle :
      {form : CreateForm} {waiting : List CreateRequest}
      → CreateRun trim user_teams form waiting
      → IsSingle trim user_teams form waiting
  unfolding click_cancel
  CreateRun-IsSingle (mounted form idle) = idle
  CreateRun-IsSingle (edited {form} {waiting} changed before same) =
      IsSingle-same trim user_teams form changed waiting same (CreateRun-IsSingle before)
  CreateRun-IsSingle (cancelled {form} {waiting} before) =
      IsSingle-same trim user_teams form (click_cancel form) waiting refl
        (CreateRun-IsSingle before)
  CreateRun-IsSingle (clicked before) = click_create-IsSingle _ _ (CreateRun-IsSingle before)
  CreateRun-IsSingle (settled succeeded before) =
      create_settled-IsSingle succeeded _ _ _ (CreateRun-IsSingle before)
