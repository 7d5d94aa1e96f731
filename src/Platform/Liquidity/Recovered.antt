-- ===== src/Platform/Liquidity/Recovered.antt =====
-- How a disconnection of the provider, and then a recovery, changes the milestones of an order, however
-- often each happens: internal/platform/provider_settlement.go.
use tok.Prelude.{
  ◌≡◌, refl, ◌∙◌, true, false, List, [], ◌∷◌, ◌++◌, map, inl, inr, arith, Bool-cases, String,
  eq_refl, if◌then◌else◌,
}
use tok.Core.Types.{Order, Milestone, MilestoneState, OrderStatus, is_paused, is_running}
use tok.Platform.Liquidity.Incidents.{
  contains, without, disconnected_flag, disconnect_milestone, resume_milestone, disconnect_order,
  resume_order,
}

contains-append : (flag : String) (flags : List String) → contains flag (flags ++ flag ∷ []) ≡ true
unfolding contains
contains-append flag [] = rw (eq_refl flag)
contains-append flag (f ∷ flags) = ground (arith, contains-append flag flags)

contains-without :
    (flag : String) (flags : List String) → contains flag (without flag flags) ≡ false
unfolding contains without
contains-without flag [] = refl
contains-without flag (f ∷ flags) = ground (arith, contains-without flag flags)

flagged_after :
    (m : Milestone) → contains disconnected_flag (disconnect_milestone m).anomaly_flags ≡ true
flagged_after m = elim (Bool-cases (contains disconnected_flag m.anomaly_flags)) [
  | inl has ↦ ground arith
  | inr none ↦ let appended = contains-append disconnected_flag m.anomaly_flags in ground arith
]

-- A milestone's state after a disconnection and the recovery from it.
abbrev pub recovered : MilestoneState → MilestoneState
recovered MilestoneState.running = MilestoneState.running
recovered MilestoneState.paused = MilestoneState.running
recovered MilestoneState.pending = MilestoneState.pending
recovered MilestoneState.settled = MilestoneState.settled

abbrev Relation : Type 1
Relation = Milestone → Milestone → Type 0

-- The milestones of two orders are related one by one.
abbrev Pairs : Relation → List Milestone → List Milestone → Type 0
Pairs R [] [] = Unit
Pairs R (m ∷ ms) [] = ⊥
Pairs R [] (x ∷ xs) = ⊥
Pairs R (m ∷ ms) (x ∷ xs) = R m x × Pairs R ms xs

Pairs-map_self :
    (R : Relation) (g : Milestone → Milestone)
    → ((m : Milestone) → R m (g m))
    → (ms : List Milestone) → Pairs R ms (map g ms)
Pairs-map_self R g h [] = tt
Pairs-map_self R g h (m ∷ ms) = (h m, Pairs-map_self R g h ms)

Pairs-map :
    (R S : Relation) (g : Milestone → Milestone)
    → ((m x : Milestone) → R m x → S m (g x))
    → (ms xs : List Milestone) → Pairs R ms xs
    → Pairs S ms (map g xs)
Pairs-map R S g h [] [] p = tt
Pairs-map R S g h (m ∷ ms) (x ∷ xs) (p, ps) = (h m x p, Pairs-map R S g h ms xs ps)
Pairs-map R S g h [] (x ∷ xs) p = absurd p
Pairs-map R S g h (m ∷ ms) [] p = absurd p

-- How a milestone `x` of a disconnected order, and of one that has recovered, stands to what it was.
abbrev WasPaused : Relation
WasPaused m x =
    (contains disconnected_flag x.anomaly_flags ≡ true)
    × (x.state ≡ (if is_running m.state then MilestoneState.paused else m.state))

abbrev HasRecovered : Relation
HasRecovered m x = x.state ≡ recovered m.state

pause_first : (m : Milestone) → WasPaused m (disconnect_milestone m)
pause_first m = (flagged_after m, refl)

still_paused :
    (s : MilestoneState) → is_running (if is_running s then MilestoneState.paused else s) ≡ false
still_paused MilestoneState.pending = refl
still_paused MilestoneState.running = refl
still_paused MilestoneState.paused = refl
still_paused MilestoneState.settled = refl

pause_again : (m x : Milestone) → WasPaused m x → WasPaused m (disconnect_milestone x)
pause_again m x (flagged, state) =
    let idle : is_running x.state ≡ false = rw state (still_paused m.state) in
    (flagged_after x, rw idle state)

paused_then_resumed :
    (s : MilestoneState)
    → (if is_paused (if is_running s then MilestoneState.paused else s)
        then MilestoneState.running
        else if is_running s
        then MilestoneState.paused
        else s)
      ≡ recovered s
paused_then_resumed MilestoneState.pending = refl
paused_then_resumed MilestoneState.running = refl
paused_then_resumed MilestoneState.paused = refl
paused_then_resumed MilestoneState.settled = refl

resumed_state :
    (m : Milestone)
    → contains disconnected_flag m.anomaly_flags ≡ true
    → (resume_milestone m).state ≡ (if is_paused m.state then MilestoneState.running else m.state)
resumed_state m flagged = ground arith

resume_first : (m x : Milestone) → WasPaused m x → HasRecovered m (resume_milestone x)
resume_first m x (flagged, state) = resumed_state x flagged ∙ rw state (paused_then_resumed m.state)

never_paused : (s : MilestoneState) → is_paused (recovered s) ≡ false
never_paused MilestoneState.pending = refl
never_paused MilestoneState.running = refl
never_paused MilestoneState.paused = refl
never_paused MilestoneState.settled = refl

resume_again : (m x : Milestone) → HasRecovered m x → HasRecovered m (resume_milestone x)
resume_again m x state =
    let idle : is_paused x.state ≡ false = rw state (never_paused m.state) in rw idle state

-- An order that a disconnection has touched, and one that a recovery has touched after it.
abbrev pub IsDisconnected : Order → Order → Type 0
IsDisconnected o x =
    (x.status ≡ OrderStatus.awaiting_payment_rail) × Pairs WasPaused o.milestones x.milestones

abbrev pub IsBack : Order → Order → Type 0
IsBack o x = (x.status ≡ OrderStatus.running) × Pairs HasRecovered o.milestones x.milestones

pub disconnect_first : (o : Order) → IsDisconnected o (disconnect_order o)
disconnect_first o = (refl, Pairs-map_self WasPaused disconnect_milestone pause_first o.milestones)

pub disconnect_again : (o x : Order) → IsDisconnected o x → IsDisconnected o (disconnect_order x)
disconnect_again o x (status, pairs) =
    (refl, Pairs-map WasPaused WasPaused disconnect_milestone pause_again _ _ pairs)

pub IsBack-first : (o x : Order) → IsDisconnected o x → IsBack o (resume_order x)
IsBack-first o x (status, pairs) =
    (rw status refl, Pairs-map WasPaused HasRecovered resume_milestone resume_first _ _ pairs)

pub IsBack-again : (o x : Order) → IsBack o x → IsBack o (resume_order x)
IsBack-again o x (status, pairs) =
    (rw status refl, Pairs-map HasRecovered HasRecovered resume_milestone resume_again _ _ pairs)

pub states_back :
    (ms xs : List Milestone)
    → Pairs HasRecovered ms xs
    → map (λ m. m.state) xs ≡ map (λ m. recovered m.state) ms
states_back [] [] p = refl
states_back (m ∷ ms) (x ∷ xs) (p, ps) = rw (p, states_back ms xs ps) refl
states_back [] (x ∷ xs) p = absurd p
states_back (m ∷ ms) [] p = absurd p
