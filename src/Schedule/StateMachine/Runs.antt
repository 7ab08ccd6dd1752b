-- ===== src/Schedule/StateMachine/Runs.antt =====
-- Any sequence of calls of `apply_transition` (app/repayment_schedule/state_machine.py): the history
-- is a justified chain, and the final states absorb.
use fund_lok.Prelude.{
  ℕ, ◌≡◌, refl, ◌⊎◌, inl, inr, false, Option, none, some, List, [], ◌∷◌, ◌++◌, arith, All,
}
use fund_lok.Schedule.Facility.{FacilityState, settled, written_off, in_recovery, Trigger}
use fund_lok.Schedule.StateMachine.Rules.{
  Context, done, failed, Outcome, TransitionError, is_terminal,
}
use fund_lok.Schedule.StateMachine.Apply.{
  check_transition, or_empty, metadata_of, apply_transition, Machine, StateTransition,
}
use fund_lok.Schedule.StateMachine.Diagram.{Edge, PastBackstop}
use fund_lok.Schedule.StateMachine.Check.{check_transition_iff, Outcome-cases}

-- The arguments of one call.
pub record Request : Type 0 where
  pub to_status : FacilityState
  pub trigger : Trigger
  pub actor_id : Option ℕ
  pub context : Option Context
  pub occurred_at : Option ℕ

abbrev pub call : Request → Machine → Outcome StateTransition × Machine
call r m = apply_transition r.to_status r.trigger r.actor_id r.context r.occurred_at m

-- The calls in order; one that raises has written nothing, and the next goes on from there.
unfoldable pub run : List Request → Machine → Machine
run [] m = m
run (r ∷ rs) m = run rs (call r m).1

-- The metadata that a row keeps reads like the context that was given.
or_empty-metadata_of :
    (context : Option Context) → or_empty (metadata_of context) ≡ or_empty context
or_empty-metadata_of none = refl
or_empty-metadata_of (some ctx) = ground arith

-- A row that the transition table allows under the metadata which the row itself records.
abbrev pub IsJustified : FacilityState → StateTransition → Type 0
IsJustified from row =
    (row.from_status ≡ some from) × Edge (or_empty row.metadata) from row.trigger row.to_status

-- Justified rows that lead from the first status to the last.
abbrev pub Chain : FacilityState → List StateTransition → FacilityState → Type 0
Chain from [] to = from ≡ to
Chain from (row ∷ rows) to = IsJustified from row × Chain row.to_status rows to

Chain-append :
    (from mid : FacilityState) (rows : List StateTransition) (row : StateTransition)
    → Chain from rows mid
    → IsJustified mid row
    → Chain from (rows ++ row ∷ []) row.to_status
Chain-append from mid [] row h j = (rw h j, refl)
Chain-append from mid (r ∷ rows) row h j = (h.0, Chain-append r.to_status mid rows row h.1 j)

abbrev pub row_of : Request → Machine → StateTransition
row_of r m = record {
  from_status = some m.facility.status;
  to_status = r.to_status;
  trigger = r.trigger;
  actor_id = r.actor_id;
  metadata = metadata_of r.context;
  occurred_at = r.occurred_at;
}

-- A call writes the new status and one row, and nothing else, exactly if the table allows the
-- transition in the given context; otherwise it raises and leaves facility and history alone.
pub apply_transition_outcome :
    (r : Request) (m : Machine)
    → (Edge (or_empty r.context) m.facility.status r.trigger r.to_status
        × (call r m ≡ (
          done (row_of r m),
          record {
            facility = record m.facility { status = r.to_status };
            history = m.history ++ row_of r m ∷ [];
          },
        )))
      ⊎ ((¬ Edge (or_empty r.context) m.facility.status r.trigger r.to_status)
          × (e : TransitionError) × (call r m ≡ (failed e, m)))
unfolding apply_transition
apply_transition_outcome r m =
    elim (Outcome-cases (check_transition m.facility.status r.to_status r.trigger r.context)) [
      | inl (checked, passed) ↦ inl (
        (check_transition_iff m.facility.status r.to_status r.trigger r.context).0 passed,
        rw passed,
      )
      | inr (e, refused) ↦ inr (
        λ edge.
            cc ((check_transition_iff m.facility.status r.to_status r.trigger r.context).1 edge),
        e,
        rw refused,
      )
    ]

call-Chain :
    (from : FacilityState) (r : Request) (m : Machine)
    → Chain from m.history m.facility.status
    → Chain from (call r m).1.history (call r m).1.facility.status
call-Chain from r m h = elim (apply_transition_outcome r m) [
  | inl (edge, written) ↦ rw written (
      Chain-append from m.facility.status m.history (row_of r m) h
        (refl, rw or_empty-metadata_of edge))
  | inr (no_edge, e, refused) ↦ rw refused h
]

-- Whatever calls are made, the recorded history stays a chain of allowed transitions, each under
-- the metadata of its own row, and it ends at the facility's present status.
pub run-Chain :
    (from : FacilityState) (rs : List Request) (m : Machine)
    → Chain from m.history m.facility.status
    → Chain from (run rs m).history (run rs m).facility.status
unfolding run
run-Chain from [] m h = h
run-Chain from (r ∷ rs) m h = run-Chain from rs (call r m).1 (call-Chain from r m h)

-- SETTLED and WRITTEN_OFF.
abbrev pub IsFinal : FacilityState → Type 0
IsFinal s = (s ≡ settled) ⊎ (s ≡ written_off)

Edge-not_terminal :
    {ctx : Context} {s u : FacilityState} {t : Trigger} → Edge ctx s t u → is_terminal s ≡ false
Edge-not_terminal Edge.approve = refl
Edge-not_terminal _ = refl

final_no-Edge : (ctx : Context) (s u : FacilityState) (t : Trigger) → IsFinal s → ¬ Edge ctx s t u
final_no-Edge ctx s u t h edge = ground (arith, Edge-not_terminal edge)

-- A settled or written-off facility never changes again, whatever calls are made.
pub run_final : (rs : List Request) (m : Machine) → IsFinal m.facility.status → run rs m ≡ m
unfolding run
run_final [] m h = refl
run_final (r ∷ rs) m h = elim (apply_transition_outcome r m) [
  | inl (edge, written) ↦ absurd (final_no-Edge _ _ _ _ h edge)
  | inr (no_edge, e, refused) ↦ rw refused (run_final rs m h)
]

-- INV-9 for one row: a write-off starts in recovery, on a day past the backstop.
abbrev pub WrittenOffLate : StateTransition → Type 0
WrittenOffLate row =
    row.to_status ≡ written_off
    → (row.from_status ≡ some in_recovery) × PastBackstop (or_empty row.metadata)

Edge-written_off :
    {ctx : Context} {s u : FacilityState} {t : Trigger}
    → Edge ctx s t u
    → u ≡ written_off
    → (s ≡ in_recovery) × PastBackstop ctx
Edge-written_off (Edge.write_off late) e = (refl, late)
Edge-written_off _ e = absurd (cc)

Chain-WrittenOffLate :
    (from to : FacilityState) (rows : List StateTransition)
    → Chain from rows to
    → All WrittenOffLate rows
Chain-WrittenOffLate from to [] h = tt
Chain-WrittenOffLate from to (row ∷ rows) h = (
  λ e. let (source, late) = Edge-written_off h.0.1 e in (rw (h.0.0, source), late),
  Chain-WrittenOffLate row.to_status to rows h.1,
)

-- INV-9: in the history after any calls on a facility without history, every write-off was made out
-- of IN_RECOVERY and on a recorded day index past the recorded backstop.
pub run-WrittenOffLate :
    (rs : List Request) (m : Machine) → m.history ≡ [] → All WrittenOffLate (run rs m).history
run-WrittenOffLate rs m fresh =
    Chain-WrittenOffLate m.facility.status _ (run rs m).history
      (run-Chain m.facility.status rs m (rw fresh refl))
