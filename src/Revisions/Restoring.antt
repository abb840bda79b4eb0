-- ===== src/Revisions/Restoring.antt =====
-- When the history panel sends a restore.
use etl_nexus.Common.{
  ℕ, ◌+◌, Bool, true, false, not, ◌&&◌, String, List, [], ◌∷◌, Option, none, some, eq_iff, has,
  length, All, if-holds, ◌≡◌, ◌≢◌, refl, arith,
}
use etl_nexus.Revisions.{
  PanelState, is_id, is_none, click_restore, cancel_confirm, handle_restore, click_confirm,
  restore_answered,
}

-- What has happened in a panel: the revisions whose "Restore" was clicked and those that were sent,
-- the last one first, and the number of answers.
pub record Trace : Type 0 where
  pub asked : List String
  pub sent : List String
  pub answers : ℕ

abbrev pub log_sent : Option String → Trace → Trace
log_sent none t = t
log_sent (some id) t = record t { sent = id ∷ t.sent }

-- the panel of a product whose revisions a user looks at
module _ (can_edit : Bool) where
  pub data PanelRun : PanelState → Trace → Type 0 where
    mounted :
        PanelRun
          (record { confirm_id = none; restoring = none })
          (record { asked = []; sent = []; answers = 0 })
    restore_clicked :
        {p : PanelState} {t : Trace} (id : String)
        → PanelRun p t
        → PanelRun (click_restore can_edit id p) (record t { asked = id ∷ t.asked })
    cancelled : {p : PanelState} {t : Trace} → PanelRun p t → PanelRun (cancel_confirm p) t
    confirmed :
        {p : PanelState} {t : Trace} (id : String)
        → PanelRun p t
        → PanelRun (click_confirm can_edit id p).0 (log_sent (click_confirm can_edit id p).1 t)
    answered :
        {p : PanelState} {t : Trace} (ok : Bool)
        → is_none p.restoring ≡ false
        → PanelRun p t
        → PanelRun (restore_answered ok p).0 (record t { answers = t.answers + 1 })

  abbrev pending : Option String → ℕ
  pending none = 0
  pending (some id) = 1

  abbrev AskedFor : List String → Option String → Type 0
  AskedFor asked none = Unit
  AskedFor asked (some id) = has id asked ≡ true

  -- Every revision that was sent was asked for by someone who can edit, and at most one is pending.
  pub record IsConfirmed (p : PanelState) (t : Trace) : Type 0 where
    pub sent_asked : All (λ id. has id t.asked ≡ true) t.sent
    pub confirm_asked : AskedFor t.asked p.confirm_id
    pub one_pending : length t.sent ≡ t.answers + pending p.restoring
    pub permitted : t.sent ≢ [] → can_edit ≡ true

  has-cons : (id x : String) (ids : List String) → has id ids ≡ true → has id (x ∷ ids) ≡ true
  unfolding has
  has-cons id x ids h = ground arith

  has-first : (id : String) (ids : List String) → has id (id ∷ ids) ≡ true
  unfolding has
  has-first id ids = ground (arith, (eq_iff id id).1 refl)

  All-has :
      (x : String) (asked ids : List String)
      → All (λ id. has id asked ≡ true) ids
      → All (λ id. has id (x ∷ asked) ≡ true) ids
  All-has x asked [] h = tt
  All-has x asked (id ∷ ids) (h, hs) = (has-cons id x asked h, All-has x asked ids hs)

  AskedFor-cons :
      (x : String) (asked : List String) (id : Option String)
      → AskedFor asked id
      → AskedFor (x ∷ asked) id
  AskedFor-cons x asked none h = tt
  AskedFor-cons x asked (some id) h = has-cons id x asked h

  click_restore-IsConfirmed :
      (id : String) (p : PanelState) (t : Trace)
      → IsConfirmed p t
      → IsConfirmed (click_restore can_edit id p) (record t { asked = id ∷ t.asked })
  unfolding click_restore
  click_restore-IsConfirmed id p t h =
      if-holds (λ q. IsConfirmed q (record t { asked = id ∷ t.asked }))
        (can_edit && not (is_id p.confirm_id id))
        (λ _. record {
          sent_asked = All-has id t.asked t.sent h.sent_asked;
          confirm_asked = has-first id t.asked;
          one_pending = h.one_pending;
          permitted = h.permitted;
        })
        (λ _. record {
          sent_asked = All-has id t.asked t.sent h.sent_asked;
          confirm_asked = AskedFor-cons id t.asked p.confirm_id h.confirm_asked;
          one_pending = h.one_pending;
          permitted = h.permitted;
        })

  asked_for :
      (asked : List String) (confirm_id : Option String) (id : String)
      → AskedFor asked confirm_id
      → is_id confirm_id id ≡ true
      → has id asked ≡ true
  asked_for asked none id h e = cc
  asked_for asked (some other) id h e = rw⁻¹ ((eq_iff other id).0 e) h

  none_pending : (restoring : Option String) → is_none restoring ≡ true → pending restoring ≡ 0
  none_pending none e = refl
  none_pending (some id) e = cc

  some_pending : (restoring : Option String) → is_none restoring ≡ false → pending restoring ≡ 1
  some_pending none e = cc
  some_pending (some id) e = refl

  abbrev Next : Trace → PanelState × Option String → Type 0
  Next t (q, id) = IsConfirmed q (log_sent id t)

  click_confirm-IsConfirmed :
      (id : String) (p : PanelState) (t : Trace)
      → IsConfirmed p t
      → IsConfirmed (click_confirm can_edit id p).0 (log_sent (click_confirm can_edit id p).1 t)
  unfolding click_confirm handle_restore
  click_confirm-IsConfirmed id p t h =
      if-holds (Next t) (can_edit && (is_id p.confirm_id id && is_none p.restoring))
        (λ e. record {
          sent_asked =
              (asked_for t.asked p.confirm_id id h.confirm_asked (ground arith), h.sent_asked);
          confirm_asked = h.confirm_asked;
          one_pending = omega (arith, h.one_pending, none_pending p.restoring (ground arith));
          permitted = λ _. ground arith;
        })
        (λ _. h)

  restore_answered-IsConfirmed :
      (ok : Bool) (p : PanelState) (t : Trace)
      → is_none p.restoring ≡ false
      → IsConfirmed p t
      → IsConfirmed (restore_answered ok p).0 (record t { answers = t.answers + 1 })
  unfolding restore_answered
  restore_answered-IsConfirmed true p t e h = record {
    sent_asked = h.sent_asked;
    confirm_asked = tt;
    one_pending = omega (arith, h.one_pending, some_pending p.restoring e);
    permitted = h.permitted;
  }
  restore_answered-IsConfirmed false p t e h = record {
    sent_asked = h.sent_asked;
    confirm_asked = h.confirm_asked;
    one_pending = omega (arith, h.one_pending, some_pending p.restoring e);
    permitted = h.permitted;
  }

  cancel_confirm-IsConfirmed :
      (p : PanelState) (t : Trace) → IsConfirmed p t → IsConfirmed (cancel_confirm p) t
  unfolding cancel_confirm
  cancel_confirm-IsConfirmed p t h = record {
    sent_asked = h.sent_asked;
    confirm_asked = tt;
    one_pending = h.one_pending;
    permitted = h.permitted;
  }

  -- In every run of the history panel: each revision that was sent to be restored had been asked
  -- for by its button "Restore", the user can edit, and there is an answer to every restore but
  -- the one that is pending, so that no two are pending at once.
  pub PanelRun-IsConfirmed : {p : PanelState} {t : Trace} → PanelRun p t → IsConfirmed p t
  PanelRun-IsConfirmed mounted = record {
    sent_asked = tt;
    confirm_asked = tt;
    one_pending = refl;
    permitted = λ n. absurd (n refl);
  }
  PanelRun-IsConfirmed (restore_clicked {p = p} {t = t} id run) =
      click_restore-IsConfirmed id p t (PanelRun-IsConfirmed run)
  PanelRun-IsConfirmed (cancelled run) = cancel_confirm-IsConfirmed _ _ (PanelRun-IsConfirmed run)
  PanelRun-IsConfirmed (confirmed {p = p} {t = t} id run) =
      click_confirm-IsConfirmed id p t (PanelRun-IsConfirmed run)
  PanelRun-IsConfirmed (answered {p = p} {t = t} ok e run) =
      restore_answered-IsConfirmed ok p t e (PanelRun-IsConfirmed run)
