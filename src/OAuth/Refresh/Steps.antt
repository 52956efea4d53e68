-- ===== src/OAuth/Refresh/Steps.antt =====
-- The critical sections of internal/codexoauth/manager.go in any order.
use clan.Prelude.{
  ℕ, Bool, true, false, Option, none, some, List, [], ◌∷◌, if◌then◌else◌, get_elem?, Text,
}
use clan.Retry.{Time}
use clan.Account.{OAuthCredentials}
use clan.Storage.{AccountRecord}
use clan.Storage.Accounts.{AccountRow, read_row}
use clan.OAuth.Refresh.{RefreshState, Refreshes, invalidate, Seen, take}
use clan.OAuth.Refresh.Jobs.{Clock, decide, Outcome, finish}

pub data Event : Type 0 where
  takes : Text → Seen → Option AccountRow → Event
  decides : Text → AccountRecord → ℕ → Bool → Clock → Event
  finishes : Text → ℕ → Outcome → Time → Event
  invalidates : Text → Bool → Event
  closes : Event

abbrev pub is_running : Option RefreshState → Bool
is_running none = false
is_running (some s) = s.running

module _ (decrypt : Text → Text → Option OAuthCredentials) where
  -- One critical section; a job ends only if it was started.
  unfoldable pub step : Refreshes → Event → Refreshes
  step m (takes id seen row) = (take m id seen (read_row decrypt id row)).0
  step m (decides id r i waited t) = (decide m id r i waited t).0
  step m (finishes id i o now) =
      if is_running (get_elem? m.states i) then finish m id i o now else m
  step m (invalidates id preserve) = invalidate m id preserve
  step m closes = record m { closed = true }

  unfoldable pub run : Refreshes → List Event → Refreshes
  run m [] = m
  run m (e ∷ es) = run (step m e) es
