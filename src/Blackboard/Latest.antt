-- ===== src/Blackboard/Latest.antt =====
-- What is written last is what the blackboard reads back as the latest.
use gestalt_agentic_software.Protocol.Constraints.{check_stats_report}
use gestalt_agentic_software.Python.Floats.{FloatOps}
use mathlib.Core.List.{reverse-append}
use gestalt_agentic_software.Python.Exec.{ok, Result, raise_with, validation_error}
use gestalt_agentic_software.Protocol.Reports.{GestaltStatsReport}
use gestalt_agentic_software.Protocol.Models.{Datetime, Metadata}
use gestalt_agentic_software.Prelude.Sorting.{insert_desc, sort_desc, sort_desc-All}
use gestalt_agentic_software.Blackboard.{
  get_latest_stats, get_prompt_policy, newest_first, update_prompt_policy, write_stats_report,
  insert_row, GestaltBlackboard, first, PromptOverlayRow, has_key, overlay_or_empty, reload_stats,
  check_agent_health, reload_first, has_finite_floats,
}
use gestalt_agentic_software.Prelude.{
  if◌then◌else◌, Bool, ℕ, List, All, ◌≡◌, String, true, ◌<◌, select, some, ◌++◌, false, ◌∷◌, [],
  arith, ap, refl, str_eq, ◌∙◌, reverse, str_eq_refl, All-reverse, All-select,
}

module _ {A : Type 0} (key : A → ℕ) where
  insert-first :
      (x : A) (ys : List A) → All (λ y. key y < key x) ys → first (insert_desc key x ys) ≡ some x
  unfolding insert_desc
  insert-first x [] h = refl
  insert-first x (y ∷ ys) (below, h) = ground arith

-- The one written last, at a later time than the others, is the newest.
newest_first-latest :
    {A : Type 0} (created_at : A → Datetime) (xs : List A) (x : A)
    → All (λ y. (created_at y).instant < (created_at x).instant) xs
    → first (newest_first created_at (xs ++ x ∷ [])) ≡ some x
unfolding newest_first sort_desc
newest_first-latest created_at xs x h =
    ap (λ (l : List _). first (sort_desc (λ y. (created_at y).instant) l))
      (reverse-append xs (x ∷ []))
    ∙ insert-first (λ y. (created_at y).instant) x _
        (sort_desc-All _ _ (reverse xs) (All-reverse _ xs h))

select-append :
    {A : Type 0} (p : A → Bool) (xs : List A) (x : A)
    → p x ≡ true
    → select p (xs ++ x ∷ []) ≡ select p xs ++ x ∷ []
select-append p [] x h = ground arith
select-append p (y ∷ xs) x h = ground (arith, select-append p xs x h)

-- An overlay that is written later than every other one is the policy of its target afterwards.
pub get-update_prompt_policy :
    (now : Datetime) (target : String) (overlay : Metadata) (b : GestaltBlackboard)
    → All (λ (r : PromptOverlayRow). r.created_at.instant < now.instant) b.overlays
    → get_prompt_policy (update_prompt_policy now target overlay b) target ≡ overlay
unfolding get_prompt_policy update_prompt_policy
get-update_prompt_policy now target overlay b earlier =
    let row : PromptOverlayRow = record { target = target; overlay = overlay; created_at = now } in
    let is_target = λ (r : PromptOverlayRow). str_eq r.target target in
    ap
      (λ (l : List PromptOverlayRow). overlay_or_empty (first (newest_first (λ r. r.created_at) l)))
      (select-append is_target b.overlays row (str_eq_refl target))
    ∙ ap overlay_or_empty (
        newest_first-latest (λ r. r.created_at) (select is_target b.overlays) row
          (All-select _ is_target b.overlays earlier))

write_stats_report_eq :
    (r : GestaltStatsReport) (b : GestaltBlackboard)
    → has_key (λ (x : GestaltStatsReport). x.report_id) r.report_id b.stats_reports ≡ false
    → write_stats_report r b ≡ (ok r, record b { stats_reports = b.stats_reports ++ r ∷ [] })
unfolding write_stats_report insert_row
write_stats_report_eq r b fresh = ground (arith, fresh)

-- A report that its class accepts, the snapshots of its agents included.
pub record IsAccepted (f : FloatOps) (r : GestaltStatsReport) : Type 0 where
  pub health : check_agent_health f r.agent_health ≡ ok tt
  pub report : check_stats_report f r ≡ ok r

reload_first-accepted :
    (f : FloatOps) (r : GestaltStatsReport)
    → IsAccepted f r
    → reload_first f (some r) ≡ (
        if has_finite_floats r then ok (some r) else raise_with validation_error "validation error")
unfolding reload_stats
reload_first-accepted f r accepted = ground (arith, accepted.health, accepted.report)

-- A stats report that its class accepts, with an id of its own, that is written later than every other
-- one is stored. It is read back as the latest one afterwards if each of its floats is finite; with an
-- infinite one, reading the latest report raises a validation error.
pub get-write_stats_report :
    (f : FloatOps) (r : GestaltStatsReport) (b : GestaltBlackboard)
    → IsAccepted f r
    → has_key (λ (x : GestaltStatsReport). x.report_id) r.report_id b.stats_reports ≡ false
    → All
        (λ (x : GestaltStatsReport). x.captured_at.instant < r.captured_at.instant)
        b.stats_reports
    → ((write_stats_report r b).0 ≡ ok r)
      × (get_latest_stats f (write_stats_report r b).1 ≡ (
          if has_finite_floats r
          then ok (some r)
          else raise_with validation_error "validation error"))
unfolding get_latest_stats
get-write_stats_report f r b accepted fresh earlier =
    let eq = write_stats_report_eq r b fresh in
    (
      ap (λ (x : Result GestaltStatsReport × GestaltBlackboard). x.0) eq,
      ap (λ (x : Result GestaltStatsReport × GestaltBlackboard). get_latest_stats f x.1) eq
          ∙ ap (reload_first f) (newest_first-latest (λ x. x.captured_at) b.stats_reports r earlier)
          ∙ reload_first-accepted f r accepted,
    )
