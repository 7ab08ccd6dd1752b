-- ===== src/Underwriting/Resolved.antt =====
-- How `grade` resolves a decision (app/underwriting/grading/engine.py), as four equivalences.
use fund_lok.Prelude.{
  ◌≡◌, refl, sym, ap, ◌∙◌, ◌↔◌, ◌⊎◌, inl, inr, Bool, true, false, ◌&&◌, some, List, [], ◌∷◌, arith,
  any_of, Bool-cases,
}
use fund_lok.Db.{Result, ok}
use fund_lok.Underwriting.Numbers.{ok_injective}
use fund_lok.Underwriting.Types.{GateResult, Decision, approved, review, reject, ai_pending}
use fund_lok.Underwriting.Gates.{has_severity, decide}

abbrev pub AnyOf : {A : Type 0} → (A → Type 0) → List A → Type 0
AnyOf P [] = ⊥
AnyOf P (x ∷ xs) = P x ⊎ AnyOf P xs

pub any_of-AnyOf :
    {A : Type 0} (p : A → Bool) (P : A → Type 0)
    → ((x : A) → (p x ≡ true) ↔ P x)
    → (xs : List A) → (any_of p xs ≡ true) ↔ AnyOf P xs
any_of-AnyOf p P each [] = (λ h. absurd (ground arith), λ h. absurd h)
any_of-AnyOf p P each (x ∷ xs) =
    let (there, back) = any_of-AnyOf p P each xs in
    elim (Bool-cases (p x)) [
      | inl yes_x ↦ rw yes_x (λ h. inl ((each x).0 yes_x), λ h. refl)
      | inr no_x ↦ rw no_x (
        λ h. inr (there h),
        λ h. elim h [
          | inl at_x ↦ absurd (ground (arith, (each x).1 at_x))
          | inr later ↦ back later
        ],
      )
    ]

true-ne-false : (b : Bool) → b ≡ true → b ≡ false → ⊥
true-ne-false b h k = absurd (ground arith)

-- A Boolean test that stands for a type, false where the type is empty.
not_iff : (b : Bool) (A : Type 0) → (b ≡ true) ↔ A → (b ≡ false) ↔ (¬ A)
not_iff b A (there, back) = (
  λ h a. true-ne-false b (back a) h,
  λ none_a. elim (Bool-cases b) [ inl yes_b ↦ absurd (none_a (there yes_b)) | inr no_b ↦ no_b ],
)

-- The four decisions of `decide`, by the severities that fired.
pub decided :
    (pending hard soft : Bool) (results : List GateResult)
    → any_of (has_severity "hard") results ≡ hard
    → any_of (has_severity "soft") results ≡ soft
    → ((decide pending results ≡ reject) ↔ (hard ≡ true))
      × ((decide pending results ≡ ai_pending) ↔ ((hard ≡ false) × (pending ≡ true)))
      × ((decide pending results ≡ review) ↔ ((hard ≡ false) × (pending ≡ false) × (soft ≡ true)))
      × ((decide pending results ≡ approved)
          ↔ ((hard ≡ false) × (pending ≡ false) × (soft ≡ false)))
unfolding decide
decided pending hard soft results h s = ground arith

-- The same, with types for the three tests.
pub decided_as :
    (d : Decision) (hard pending soft : Bool) (H M S : Type 0)
    → (hard ≡ true) ↔ H
    → (pending ≡ true) ↔ M
    → (soft ≡ true) ↔ S
    → ((d ≡ reject) ↔ (hard ≡ true))
      × ((d ≡ ai_pending) ↔ ((hard ≡ false) × (pending ≡ true)))
      × ((d ≡ review) ↔ ((hard ≡ false) × (pending ≡ false) × (soft ≡ true)))
      × ((d ≡ approved) ↔ ((hard ≡ false) × (pending ≡ false) × (soft ≡ false)))
    → ((d ≡ reject) ↔ H)
      × ((d ≡ ai_pending) ↔ ((¬ H) × M))
      × ((d ≡ review) ↔ ((¬ H) × (¬ M) × S))
      × ((d ≡ approved) ↔ ((¬ H) × (¬ M) × (¬ S)))
decided_as d hard pending soft H M S h m s (rej, pend, rev, app) =
    let h' = not_iff hard H h in
    let m' = not_iff pending M m in
    let s' = not_iff soft S s in
    (
      (λ e. h.0 (rej.0 e), λ x. rej.1 (h.1 x)),
      (λ e. let (a, b) = pend.0 e in (h'.0 a, m.0 b), λ (a, b). pend.1 (h'.1 a, m.1 b)),
      (
        λ e. let (a, b, c) = rev.0 e in (h'.0 a, m'.0 b, s.0 c),
        λ (a, b, c). rev.1 (h'.1 a, m'.1 b, s.1 c),
      ),
      (
        λ e. let (a, b, c) = app.0 e in (h'.0 a, m'.0 b, s'.0 c),
        λ (a, b, c). app.1 (h'.1 a, m'.1 b, s'.1 c),
      ),
    )

pub all_three : (a b c : Bool) → (a && b && c) ≡ true → (a ≡ true) × (b ≡ true) × (c ≡ true)
all_three a b c h = ground arith

pub from_three : (a b c : Bool) → a ≡ true → b ≡ true → c ≡ true → (a && b && c) ≡ true
from_three a b c x y z = ground arith

pub some_injective : {A : Type 0} (a b : A) → some a ≡ some b → a ≡ b
some_injective a b h = ground arith

pub ok_iff : (b : Bool) (r : Result Bool) → r ≡ ok b → (b ≡ true) ↔ (r ≡ ok true)
ok_iff b r h = (λ e. h ∙ ap ok e, λ e. ok_injective b true (sym h ∙ e))
