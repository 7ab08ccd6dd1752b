-- ===== src/Db/Frames.antt =====
-- Methods that keep a property of the database, one rule for each way to build a method.
use fund_lok.Prelude.{Bool, true, false, if◌then◌else◌}
use fund_lok.Db.{
  Db, Error, Result, ok, err, Exec, pure, lift, gets, continue, ◌>>=◌, raise_if, modify,
}

-- `m` keeps `P`, whether it returns or raises.
pub record Preserves {A : Type 0} (P : Db → Type 0) (m : Exec A) : Type 0 where
  pub at : (db : Db) → P db → P (m db).1

module _ {A : Type 0} {P : Db → Type 0} where
  pub pure-Preserves : (a : A) → Preserves P (pure a)
  pure-Preserves a = record { at = λ db h. h }

  pub lift-Preserves : (r : Result A) → Preserves P (lift r)
  lift-Preserves r = record { at = λ db h. h }

  pub gets-Preserves : (f : Db → A) → Preserves P (gets f)
  gets-Preserves f = record { at = λ db h. h }

  -- a query that may raise
  pub query-Preserves : (f : Db → Result A) → Preserves P (λ db. (f db, db))
  query-Preserves f = record { at = λ db h. h }

  pub if-Preserves :
      (c : Bool) (m n : Exec A) → Preserves P m → Preserves P n → Preserves P (if c then m else n)
  if-Preserves true m n h k = h
  if-Preserves false m n h k = k

module _ {P : Db → Type 0} where
  pub raise_if-Preserves : (c : Bool) (e : Error) → Preserves P (raise_if c e)
  raise_if-Preserves c e = record { at = λ db h. h }

  pub modify-Preserves : (f : Db → Db) → ((db : Db) → P db → P (f db)) → Preserves P (modify f)
  modify-Preserves f keep = record { at = keep }

module _ {A B : Type 0} {P : Db → Type 0} where
  continue-Preserves :
      (r : Result A) (f : A → Exec B) (db : Db)
      → ((a : A) → Preserves P (f a))
      → P db
      → P (continue r f db).1
  continue-Preserves (ok a) f db each h = (each a).at db h
  continue-Preserves (err e) f db each h = h

  pub bind-Preserves :
      (m : Exec A) (f : A → Exec B)
      → Preserves P m
      → ((a : A) → Preserves P (f a))
      → Preserves P (m >>= f)
  bind-Preserves m f first each = record {
    at = λ db h. continue-Preserves (m db).0 f (m db).1 each (first.at db h);
  }

pub ruleset frames = (
  pure-Preserves, lift-Preserves, gets-Preserves, query-Preserves, raise_if-Preserves,
  modify-Preserves, bind-Preserves, if-Preserves,
)
