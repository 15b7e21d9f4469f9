-- ===== src/Ui/AuditPages.antt =====
-- internal/api/ui_pages.go: the rows of the audit log, the dashboard and the audit pages.
pub mod Paging
use scopuli.Prelude.{
  Bool, Exec, List, Option, Text, [], attempt, codes, fail_if, false, if◌then◌else◌, is_positive,
  keep, length, map, nat_eq, negsuc, none, not, pos, pure, some, suc, text_eq, true, zero, ℕ, ℤ,
  ◌*◌, ◌==◌, ◌>>=◌, ◌>>◌, ◌or_fail◌, ◌∷◌,
}
use scopuli.Api.{Server, number_or_zero}
use scopuli.Api.Keys.{expiry_of}
use scopuli.Audit.{
  Entry, Logger, Verdict, broken, count_entries, intact, list_entries, query_entries, verify,
}
use scopuli.Env.{Env}
use scopuli.Store.Database.{Key, StoreError, World, time_now}
use scopuli.Store.Keys.{get_key_by_name, is_some, list_keys}
use scopuli.Store.Secrets.{list_secret_paths}
use scopuli.Ui.{
  AuditPageData, UiAuditRow, UiHandler, UiRequest, audit_older, badge_for_result, of_audit,
  of_dashboard, render, render_page, ui_error,
}

-- A lookup in the map of uiActorNames: the last key with the number counts.
unfoldable pub actor_name : ℕ → List Key → Option Text
actor_name i [] = none
actor_name i (k ∷ keys) = elim (actor_name i keys) [
  | some name ↦ some name
  | none ↦ if k.id == i then some k.name else none
]

-- `actor = names[e.ActorID]; if actor == "" { actor = "key" }`
unfoldable pub name_or_key : Option Text → Text
name_or_key none = codes "key"
name_or_key (some name) = if name == [] then codes "key" else name

abbrev pub keys_or_none : Option (List Key) → List Key
keys_or_none none = []
keys_or_none (some keys) = keys

-- One round of the loop of uiAuditRows.
unfoldable pub ui_audit_row : List Key → Entry → UiAuditRow
unfolding actor_name name_or_key badge_for_result
ui_audit_row keys e = record {
  id = e.id;
  ts = e.ts;
  actor_kind = e.actor_kind;
  actor =
      if e.actor_kind == codes "operator"
      then codes "operator"
      else name_or_key (actor_name e.actor_id keys);
  action = e.action;
  path = e.path;
  result_badge = badge_for_result e.result;
}

-- The counts of the dashboard: keys that are revoked, and keys that are not.
unfoldable pub count_keys : Bool → List Key → ℕ
count_keys is_revoked keys = length (keep (λ k. same_bool (is_some k.revoked_at) is_revoked) keys)
  where
    same_bool : Bool → Bool → Bool
    same_bool true b = b
    same_bool false b = not b

-- The number behind `time.Now()` of which a window reaches back.
abbrev pub window_hours : Text → Option ℕ
window_hours since =
    if since == codes "24h"
    then some 24
    else if since == codes "7d"
    then some (7 * 24)
    else if since == codes "30d"
    then some (30 * 24)
    else none

abbrev pub hour : ℕ
hour = 3600 * 1000000000

-- `now.Add(-h * time.Hour).UnixMilli()`
unfoldable pub hours_before : ℕ → ℕ → ℤ
unfolding expiry_of
hours_before t h = elim (h * hour) [ zero ↦ expiry_of t (pos 0) | suc n ↦ expiry_of t (negsuc n) ]

abbrev since_of : Option ℕ → ℕ → ℤ
since_of none t = pos 0
since_of (some h) t = hours_before t h

abbrev pub ui_audit_page_size : ℕ
ui_audit_page_size = 50

-- `entries[len(entries)-1].ID`, or 0.
unfoldable pub last_id : List Entry → ℕ
last_id [] = 0
last_id (e ∷ []) = e.id
last_id (e ∷ d ∷ found) = last_id (d ∷ found)

module _ ⦃env : Env⦄ where
  -- `uiAuditRows`, with `uiActorNames`.
  unfoldable pub ui_audit_rows : {E : Type 0} → List Entry → Exec World E (List UiAuditRow)
  unfolding list_keys ui_audit_row
  ui_audit_rows found = do
    keys ← attempt (list_keys true)
    pure (map (ui_audit_row (keys_or_none keys)) found)

  -- `sinceMSFor`.
  unfoldable pub since_ms_for : {E : Type 0} → Text → Exec World E ℤ
  unfolding time_now hours_before
  since_ms_for since = do t ← time_now; pure (since_of (window_hours since) t)

  recent_rows : {E : Type 0} → Option (List Entry) → Exec World E (List UiAuditRow)
  unfolding ui_audit_rows
  recent_rows none = pure []
  recent_rows (some found) = ui_audit_rows found

  -- `handleUIDashboard`.
  unfoldable pub handle_ui_dashboard : Server → Logger → UiRequest → UiHandler
  unfolding list_secret_paths list_keys list_entries recent_rows time_now count_entries render_page
      count_keys hours_before
  handle_ui_dashboard s l r = do
    paths ← attempt (list_secret_paths [])
    keys ← attempt (list_keys true)
    recent ← attempt (list_entries (pos 0) 0 (pos 8))
    rows ← recent_rows recent
    t ← time_now
    total ← attempt (count_entries (hours_before t 24) 0 [])
    pure (
        render_page r (record {
          active = codes "dashboard";
          operator_name = s.operator_name;
          alert = none;
          contents = of_dashboard (record {
            secrets = count_paths paths;
            active_keys = count_keys false (keys_or_none keys);
            revoked_keys = count_keys true (keys_or_none keys);
            audit_24h = number_or_zero total;
            recent = rows;
          });
        }))
    where
      count_paths : Option (List Text) → ℕ
      count_paths none = 0
      count_paths (some paths) = length paths

  -- `loadAuditPage`, for a window that is not empty.
  unfoldable pub load_audit_page : ℤ → Text → Text → Text → Exec World StoreError AuditPageData
  unfolding get_key_by_name since_ms_for query_entries count_entries ui_audit_rows last_id
  load_audit_page before_id since key_name action = do
    key_id ← (if key_name == [] then pure 0 else (do k ← get_key_by_name key_name; pure k.id))
    since_ms ← since_ms_for since
    found ← query_entries before_id since_ms key_id action (pos ui_audit_page_size)
    count_since ← since_ms_for since
    total ← attempt (count_entries count_since key_id action)
    rows ← ui_audit_rows found
    pure (record {
      is_verified = false;
      broken_at = 0;
      total = number_or_zero total;
      since = since;
      filter_key = key_name;
      action = action;
      rows = rows;
      has_more = length found == ui_audit_page_size;
      next_id = last_id found;
    })

  verified_page : Option Verdict → AuditPageData → AuditPageData
  verified_page none d = record d { is_verified = false }
  verified_page (some intact) d = record d { is_verified = true; broken_at = 0 }
  verified_page (some (broken i expected got)) d = record d { is_verified = false; broken_at = i }

  -- `handleUIAudit`, of the trimmed query.
  unfoldable pub handle_ui_audit : Server → Logger → UiRequest → Text → Text → Text → UiHandler
  unfolding load_audit_page verify render_page verified_page
  handle_ui_audit s l r since key_name action = do
    page ←
        load_audit_page (pos 0) (if since == [] then codes "24h" else since) key_name action
        or_fail λ _. ui_error 404 "no such key"
    verdict ← attempt (verify l)
    pure (
        render_page r (record {
          active = codes "audit";
          operator_name = s.operator_name;
          alert = none;
          contents = of_audit (verified_page verdict page);
        }))

  -- `handleUIAuditOlder`, of the parsed and trimmed query.
  unfoldable pub handle_ui_audit_older : ℤ → Text → Text → Text → UiHandler
  unfolding load_audit_page render
  handle_ui_audit_older before since key_name action = do
    fail_if (not (is_positive before)) (ui_error 400 "before required")
    page ←
        load_audit_page before (if since == [] then codes "all" else since) key_name action
        or_fail λ _. ui_error 404 "no such key"
    pure (render (codes "audit") (audit_older page))
