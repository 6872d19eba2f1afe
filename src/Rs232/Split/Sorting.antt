-- ===== src/Rs232/Split/Sorting.antt =====
-- src/liftApi/rs232_handler.py: where the frames of a response go.
use gateway_nexy.Rs232.Split.Queue.{last, push_all, push_all-last}
use gateway_nexy.Base.{
  append_assoc, append_empty, arith, Bool, true, Option, some, List, [], ◌∷◌, ◌++◌, ◌≡◌, refl, sym,
  if◌then◌else◌, ◌∙◌, inl, inr, ◌≤◌, length, not, ◌&&◌, Bool-cases,
}
use gateway_nexy.Base.Json.{Fields}
use gateway_nexy.Base.Text.{Text}
use gateway_nexy.Rs232.Port.{Rs232}
use gateway_nexy.Rs232.Split.Kinds.{
  same_place, is_result, is_status, is_notification, is_wanted, is_other, has_logs, is_kind,
  place_of-is_kind,
}
use gateway_nexy.Rs232.Split.{
  Split, frames, Place, to_logs, to_vfd, to_status, to_saved, to_wanted, to_other, place_of,
  sort_frames, push_vfd,
}

-- The frames that go to a place, in their order.
unfoldable frames_to : Place → Text → Text → List Fields → List Fields
frames_to at wanted_cmd wanted_type [] = []
frames_to at wanted_cmd wanted_type (rsp ∷ rsp_dec) =
    if same_place (place_of wanted_cmd wanted_type rsp) at
    then rsp ∷ frames_to at wanted_cmd wanted_type rsp_dec
    else frames_to at wanted_cmd wanted_type rsp_dec

no_cons : {x : Fields} {xs : List Fields} → x ∷ xs ≡ [] → ⊥
no_cons h = ground arith

-- The frames that pass a test, in their order.
abbrev pub those : (Fields → Bool) → List Fields → List Fields
those test [] = []
those test (rsp ∷ rsp_dec) = if test rsp then rsp ∷ those test rsp_dec else those test rsp_dec

abbrev pub no_logs : List Fields → Bool
no_logs [] = true
no_logs (rsp ∷ rsp_dec) = not (has_logs rsp) && no_logs rsp_dec

none_with_logs : (rsp_dec : List Fields) → no_logs rsp_dec ≡ true → those has_logs rsp_dec ≡ []
none_with_logs [] h = refl
none_with_logs (rsp ∷ rsp_dec) h = elim (Bool-cases (has_logs rsp)) [
  | inl e ↦ ground arith
  | inr e ↦ rw e (none_with_logs rsp_dec (ground arith))
]

module _ (S : Type 0) (wanted_cmd wanted_type : Text) where
  -- The three lists and the handler after the frames, each list with what goes to it.
  unfoldable sorted_to :
      List Fields → List Fields → List Fields → List Fields → Rs232 S → Option Split × Rs232 S
  unfolding frames_to push_all
  sorted_to rsp_dec status wanted other r = (
    some record {
      status = status ++ frames_to to_status wanted_cmd wanted_type rsp_dec;
      wanted = frames (wanted ++ frames_to to_wanted wanted_cmd wanted_type rsp_dec);
      other = other ++ frames_to to_other wanted_cmd wanted_type rsp_dec;
    },
    record r {
      saved_operation_notifications =
          r.saved_operation_notifications ++ frames_to to_saved wanted_cmd wanted_type rsp_dec;
      saved_vfd_results =
          push_all (frames_to to_vfd wanted_cmd wanted_type rsp_dec) r.saved_vfd_results;
    },
  )

  abbrev SortedTo : List Fields → Type 0
  SortedTo rsp_dec =
      (status wanted other : List Fields) (r : Rs232 S)
      → frames_to to_logs wanted_cmd wanted_type rsp_dec ≡ []
      → sort_frames wanted_cmd wanted_type rsp_dec
          (record { status = status; wanted = frames wanted; other = other }) r
        ≡ sorted_to rsp_dec status wanted other r

  SortedTo-empty : SortedTo []
  unfolding sort_frames sorted_to frames_to push_all
  SortedTo-empty status wanted other r h =
      rw
        (
          append_empty status,
          append_empty wanted,
          append_empty other,
          append_empty r.saved_operation_notifications,
        )
        refl

  -- One frame more, which goes to a place.
  SortedTo-place :
      (at : Place) (rsp : Fields) (rsp_dec : List Fields)
      → place_of wanted_cmd wanted_type rsp ≡ at
      → SortedTo rsp_dec
      → SortedTo (rsp ∷ rsp_dec)
  unfolding sort_frames sorted_to frames_to push_all
  SortedTo-place to_logs rsp rsp_dec e ih status wanted other r h = absurd (no_cons (rw e at h))
  SortedTo-place to_vfd rsp rsp_dec e ih status wanted other r h = rw e (
      ih status wanted other (record r { saved_vfd_results = push_vfd rsp r.saved_vfd_results })
        (rw e at h))
  SortedTo-place to_status rsp rsp_dec e ih status wanted other r h =
      rw (e, sym (append_assoc status rsp (frames_to to_status wanted_cmd wanted_type rsp_dec)))
        (ih (status ++ (rsp ∷ [])) wanted other r (rw e at h))
  SortedTo-place to_saved rsp rsp_dec e ih status wanted other r h =
      rw
        (
          e,
          sym (
              append_assoc r.saved_operation_notifications rsp
                (frames_to to_saved wanted_cmd wanted_type rsp_dec)),
        )
        (ih status wanted other
          (record r {
            saved_operation_notifications = r.saved_operation_notifications ++ (rsp ∷ []);
          })
          (rw e at h))
  SortedTo-place to_wanted rsp rsp_dec e ih status wanted other r h =
      rw (e, sym (append_assoc wanted rsp (frames_to to_wanted wanted_cmd wanted_type rsp_dec)))
        (ih status (wanted ++ (rsp ∷ [])) other r (rw e at h))
  SortedTo-place to_other rsp rsp_dec e ih status wanted other r h =
      rw (e, sym (append_assoc other rsp (frames_to to_other wanted_cmd wanted_type rsp_dec)))
        (ih status wanted (other ++ (rsp ∷ [])) r (rw e at h))

  sort_frames-SortedTo : (rsp_dec : List Fields) → SortedTo rsp_dec
  sort_frames-SortedTo [] = SortedTo-empty
  sort_frames-SortedTo (rsp ∷ rsp_dec) =
      SortedTo-place (place_of wanted_cmd wanted_type rsp) rsp rsp_dec refl
        (sort_frames-SortedTo rsp_dec)

  frames_to-those :
      (at : Place) (rsp_dec : List Fields)
      → no_logs rsp_dec ≡ true
      → frames_to at wanted_cmd wanted_type rsp_dec
        ≡ those (is_kind at wanted_cmd wanted_type) rsp_dec
  unfolding frames_to
  frames_to-those at [] h = refl
  frames_to-those at (rsp ∷ rsp_dec) h =
      rw
        (
          place_of-is_kind at wanted_cmd wanted_type rsp (ground arith),
          frames_to-those at rsp_dec (ground arith),
        )
        refl

  -- What the frames do to the lists and to the handler.
  abbrev pub sorted_by_kind :
      List Fields → List Fields → List Fields → List Fields → Rs232 S → Option Split × Rs232 S
  sorted_by_kind rsp_dec status wanted other r = (
    some record {
      status = status ++ those is_status rsp_dec;
      wanted = frames (wanted ++ those (is_wanted wanted_cmd wanted_type) rsp_dec);
      other = other ++ those (is_other wanted_cmd wanted_type) rsp_dec;
    },
    record r {
      saved_operation_notifications =
          r.saved_operation_notifications ++ those is_notification rsp_dec;
      saved_vfd_results = last 50 (r.saved_vfd_results ++ those is_result rsp_dec);
    },
  )

  -- Of frames with no logs the loop sends each, in order, to the list of its kind, which its entries
  -- tell: operations of type 130 to the status, those of type 135 behind the saved notifications,
  -- results of the frequency converter into their queue, frames of the wanted command and type to
  -- the wanted ones, and the rest to the others; and the queue, which had at most 50 results, has the
  -- last 50 of the old and the new ones.
  pub sort_frames-sorted_by_kind :
      (rsp_dec status wanted other : List Fields) (r : Rs232 S)
      → no_logs rsp_dec ≡ true
      → length r.saved_vfd_results ≤ 50
      → sort_frames wanted_cmd wanted_type rsp_dec
          (record { status = status; wanted = frames wanted; other = other })
          r
        ≡ sorted_by_kind rsp_dec status wanted other r
  unfolding sorted_to
  sort_frames-sorted_by_kind rsp_dec status wanted other r h hq =
      sort_frames-SortedTo rsp_dec status wanted other r
        (frames_to-those to_logs rsp_dec h ∙ none_with_logs rsp_dec h)
      ∙ rw
          (
            frames_to-those to_status rsp_dec h,
            frames_to-those to_wanted rsp_dec h,
            frames_to-those to_other rsp_dec h,
            frames_to-those to_saved rsp_dec h,
            frames_to-those to_vfd rsp_dec h,
            push_all-last (those is_result rsp_dec) r.saved_vfd_results hq,
          )
          refl
