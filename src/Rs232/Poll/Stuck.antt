-- ===== src/Rs232/Poll/Stuck.antt =====
-- src/liftApi/rs232_handler.py: a poll over a result of the frequency converter that has no data.
use Prim.{tt}
use gateway_nexy.Base.{
  Option, none, some, List, [], ◌∷◌, ◌++◌, ◌≡◌, refl, sym, ◌∙◌, Option-cases, inl, inr,
}
use mathlib.Core.Path.{subst}
use gateway_nexy.Base.Int.{ℤ}
use gateway_nexy.Base.Json.{Fields, field_of}
use gateway_nexy.Base.Text.{text}
use gateway_nexy.Codes.{Code, no_err}
use gateway_nexy.Thousand.Protocol.{Database}
use gateway_nexy.Thousand.Lookup.{ThousandLib}
use gateway_nexy.Thousand.Packages.{params_vfd_result}
use gateway_nexy.Thousand.Updates.{get_updated_params}
use gateway_nexy.Thousand.Doors.{reset_135_params, update_door_closing_time}
use gateway_nexy.Rs232.Port.{Port, Rs232, Method, done, ◌>>=◌, ◌>>◌}
use gateway_nexy.Rs232.Requests.{to_response}
use gateway_nexy.Rs232.Vfd.{
  update_vfd, update_of, vfd_result, on_database, vfd_rounds, get_vfd_motor_data, add_first, set_of,
  clear_vfd_results,
}
use gateway_nexy.Rs232.Packages.{
  on_lib, get_notification, closing_time, reset_notifications, repackage_status, of_closing_time,
}
use gateway_nexy.Rs232.Poll.{Polled, poll_rest, poll_reply, with_new, virtual_params}
use gateway_nexy.Rs232.Keeping.{Preserves, Preserves-bind}

-- The queue of results.
abbrev IsQueue : {S : Type 0} → List Fields → Rs232 S → Type 0
IsQueue queue r = r.saved_vfd_results ≡ queue

-- A method that raises and leaves the queue as it is.
abbrev Fails : {S A : Type 0} → List Fields → Method S A → Type 0
Fails queue m = (r : _) → IsQueue queue r → ((m r).0 ≡ none) × IsQueue queue (m r).1

module _ {S A B : Type 0} (queue : List Fields) where
  Fails-bind :
      (m : Method S A) (f : A → Method S B)
      → Preserves (IsQueue queue) m
      → ((a : A) → Fails queue (f a))
      → Fails queue (m >>= f)
  Fails-bind m f hm hf r h = elim (Option-cases (m r).0) [
    | inl e ↦ rw (e, ◌>>=◌) (refl, hm r h)
    | inr (a, e) ↦ rw (e, ◌>>=◌) (hf a (m r).1 (hm r h))
  ]

  Fails-first : (m : Method S A) (f : A → Method S B) → Fails queue m → Fails queue (m >>= f)
  Fails-first m f hm r h = rw ((hm r h).0, ◌>>=◌) (refl, (hm r h).1)

module _ {S A : Type 0} (queue : List Fields) where
  on_database-IsQueue :
      (f : Database → Option (A × Database)) → Preserves {S = S} (IsQueue queue) (on_database f)
  on_database-IsQueue f r h = elim (Option-cases (f r.lib.database)) [
    | inl e ↦ rw (e, on_database) h
    | inr ((a, db), e) ↦ rw (e, on_database) h
  ]

  on_lib-IsQueue :
      (f : ThousandLib → Option (A × ThousandLib)) → Preserves {S = S} (IsQueue queue) (on_lib f)
  on_lib-IsQueue f r h = elim (Option-cases (f r.lib)) [
    | inl e ↦ rw (e, on_lib) h
    | inr ((a, lib), e) ↦ rw (e, on_lib) h
  ]

-- A result with no data raises in every database.
update_vfd_no_data :
    (rsp : Fields) (db : Database) → field_of (text "data") rsp ≡ none → update_vfd rsp db ≡ none
unfolding update_vfd update_of
update_vfd_no_data rsp db h = elim (Option-cases (field_of (text "id") rsp)) [
  | inl e ↦ rw (e, vfd_result) refl
  | inr (id, e) ↦ rw (e, h, vfd_result) refl
]

module _ {S : Type 0} (queue : List Fields) where
  -- The loop does not get past such a result.
  vfd_rounds-Fails :
      (before after : List Fields) (rsp : Fields) (params : List ℤ) (err_code : Code)
      → field_of (text "data") rsp ≡ none
      → Fails {S = S} queue (vfd_rounds (before ++ (rsp ∷ after)) params err_code)
  unfolding vfd_rounds
  vfd_rounds-Fails [] after rsp params err_code hd =
      Fails-first queue (on_database (update_vfd rsp))
        (λ (changed, latest). vfd_rounds after (add_first params changed) latest)
        (λ r h. rw (update_vfd_no_data rsp r.lib.database hd, on_database) (refl, h))
  vfd_rounds-Fails (first ∷ before) after rsp params err_code hd =
      Fails-bind queue (on_database (update_vfd first))
        (λ (changed, latest).
          vfd_rounds (before ++ (rsp ∷ after)) (add_first params changed) latest)
        (on_database-IsQueue queue (update_vfd first))
        (λ (changed, latest).
          vfd_rounds-Fails before after rsp (add_first params changed) latest hd)

  -- Where the queue holds such a result.
  get_vfd_motor_data-Fails :
      (before after : List Fields) (rsp : Fields)
      → queue ≡ before ++ (rsp ∷ after)
      → field_of (text "data") rsp ≡ none
      → Fails {S = S} queue get_vfd_motor_data
  unfolding get_vfd_motor_data
  get_vfd_motor_data-Fails before after rsp hq hd r h =
      Fails-first queue (vfd_rounds r.saved_vfd_results [] no_err)
        (λ (params, err_code).
          clear_vfd_results >> done (set_of params params_vfd_result, err_code))
        (subst (λ saved. Fails {S = S} queue (vfd_rounds saved [] no_err)) (sym (h ∙ hq))
          (vfd_rounds-Fails before after rsp [] no_err hd))
        r h

module _ (p : Port) (queue : List Fields) where
  open p use {State, unix_time}

  closing_time-IsQueue : (saved : List Fields) → Preserves (IsQueue queue) (closing_time p saved)
  unfolding closing_time
  closing_time-IsQueue [] r h = h
  closing_time-IsQueue (rsp ∷ saved) r h =
      on_database-IsQueue queue
        (update_door_closing_time (unix_time r.port)
          (to_response (repackage_status (of_closing_time (rsp ∷ saved))).0))
        r h

  reset_notifications-IsQueue : Preserves {S = State} (IsQueue queue) reset_notifications
  unfolding reset_notifications
  reset_notifications-IsQueue r h =
      on_database-IsQueue queue
        (λ db. elim (reset_135_params db) [ none ↦ none | some db' ↦ some (tt, db') ])
        (record r { saved_operation_notifications = [] }) h

  get_notification-IsQueue : Preserves (IsQueue queue) (get_notification p)
  unfolding get_notification
  get_notification-IsQueue r h =
      Preserves-bind (IsQueue queue) (closing_time p r.saved_operation_notifications)
        (λ result. reset_notifications >> done result)
        (closing_time-IsQueue r.saved_operation_notifications)
        (λ result.
          Preserves-bind (IsQueue queue) reset_notifications (λ _. done result)
            reset_notifications-IsQueue (λ _ r' h'. h'))
        r h

  virtual_params-IsQueue : Preserves (IsQueue queue) (virtual_params p)
  unfolding virtual_params
  virtual_params-IsQueue r h =
      on_lib-IsQueue queue (get_updated_params (unix_time r.port) (text "virtual") []) r h

  poll_rest-Fails :
      (before after : List Fields) (rsp : Fields) (polled : Polled)
      → queue ≡ before ++ (rsp ∷ after)
      → field_of (text "data") rsp ≡ none
      → Fails queue (poll_rest p polled)
  unfolding poll_rest
  poll_rest-Fails before after rsp polled hq hd =
      Fails-bind queue (virtual_params p)
        (λ virtual. get_notification p >>= λ notified. get_vfd_motor_data >>= λ motor.
          done (poll_reply (with_new (with_new (with_new polled virtual) notified) motor)))
        virtual_params-IsQueue
        (λ virtual.
          Fails-bind queue (get_notification p)
            (λ notified. get_vfd_motor_data >>= λ motor.
              done (poll_reply (with_new (with_new (with_new polled virtual) notified) motor)))
            get_notification-IsQueue
            (λ notified.
              Fails-first queue get_vfd_motor_data
                (λ motor.
                  done (poll_reply (with_new (with_new (with_new polled virtual) notified) motor)))
                (get_vfd_motor_data-Fails queue before after rsp hq hd)))

-- Once a result with no data stands in the queue, a poll that has got through its packages raises and
-- leaves the queue as it is, so that the result stays for the next poll.
pub poll_rest-stuck :
    (p : Port) (r : Rs232 p.State) (before after : List Fields) (rsp : Fields) (polled : Polled)
    → r.saved_vfd_results ≡ before ++ (rsp ∷ after)
    → field_of (text "data") rsp ≡ none
    → ((poll_rest p polled r).0 ≡ none)
      × ((poll_rest p polled r).1.saved_vfd_results ≡ r.saved_vfd_results)
poll_rest-stuck p r before after rsp polled hq hd =
    poll_rest-Fails p r.saved_vfd_results before after rsp polled hq hd r refl
