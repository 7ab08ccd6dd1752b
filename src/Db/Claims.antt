-- ===== src/Db/Claims.antt =====
-- What a method makes of the database if it returns, by one rule for each step.
use fund_lok.Db.{Db, Result, ok, err, Exec, continue, ◌>>=◌}
use fund_lok.Db.Frames.{Preserves}

-- What holds of the database after a method, if it returns.
abbrev pub Claim : {A : Type 0} → (Db → Type 0) → Result A × Db → Type 0
Claim Q (ok a, db) = Q db
Claim Q (err e, db) = Unit {0}

-- A method that returns has made `Q` of `P`.
pub record Ensures {A : Type 0} (P Q : Db → Type 0) (m : Exec A) : Type 0 where
  pub at : (db : Db) → P db → Claim Q (m db)

module _ {A B : Type 0} {P Q : Db → Type 0} where
  after_step :
      (r : Result A) (f : A → Exec B) (db : Db)
      → P db
      → ((a : A) → Ensures P Q (f a))
      → Claim Q (continue r f db)
  after_step (ok a) f db p each = (each a).at db p
  after_step (err e) f db p each = tt

  pub step-Ensures :
      (m : Exec A) (f : A → Exec B)
      → Preserves P m
      → ((a : A) → Ensures P Q (f a))
      → Ensures P Q (m >>= f)
  step-Ensures m f first each = record {
    at = λ db p. after_step (m db).0 f (m db).1 (first.at db p) each;
  }

keep-Claim : {A : Type 0} (Q : Db → Type 0) (r : Result A) (db : Db) → Q db → Claim Q (r, db)
keep-Claim Q (ok a) db q = q
keep-Claim Q (err e) db q = tt

pub then-Claim :
    {A B : Type 0} {Q : Db → Type 0} (r : Result A) (f : A → Exec B) (db : Db)
    → Claim Q (r, db)
    → ((a : A) → Preserves Q (f a))
    → Claim Q (continue r f db)
then-Claim (ok a) f db q each = keep-Claim _ (f a db).0 (f a db).1 ((each a).at db q)
then-Claim (err e) f db q each = tt
