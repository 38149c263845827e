-- ===== src/Database/Logins.antt =====
-- Who can log in after a registration.
use Prim.Native.String.{String, compare}
use Prim.Native.Nat.{Ordering}
use cxx.Common.{
  ℕ, ◌+◌, ◌≡◌, sym, ap, ◌∙◌, Bool, true, false, ◌&&◌, ◌||◌, Option, none, some, List, [], ◌∷◌, ◌++◌,
  length, arith, ltb, if◌then◌else◌,
}
use cxx.Database.{
  Text, UserInfo, Condition, is_value, and, or, Table, columns, credentials, bindings, found,
  register_user, login_user,
}

abbrev pub is_eq : Ordering → Bool
is_eq Ordering.eq = true
is_eq _ = false

-- A row, and the values that are bound to names: each name with its value.
abbrev pub Values : Type 0
Values = List (String × Text)

abbrev pub lookup : String → Values → Option Text
lookup name [] = none
lookup name ((n, v) ∷ rest) = if is_eq (compare name n) then some v else lookup name rest

-- The values go to the columns in order.
abbrev pub row_of : List String → List Text → Values
row_of [] vs = []
row_of (c ∷ cs) [] = []
row_of (c ∷ cs) (v ∷ vs) = (c, v) ∷ row_of cs vs

-- A comparison with a value that is not there, NULL, does not hold.
abbrev pub both : (Text → Text → Bool) → Option Text → Option Text → Bool
both same (some v) (some w) = same v w
both same _ _ = false

-- Whether a row matches a condition. `same` is the comparison of a column's collation.
abbrev pub holds : (String → Text → Text → Bool) → Condition → Values → Values → Bool
holds same (is_value column name) bound row =
    both (same column) (lookup column row) (lookup name bound)
holds same (and a b) bound row = holds same a bound row && holds same b bound row
holds same (or a b) bound row = holds same a bound row || holds same b bound row

abbrev pub count_if : (Values → Bool) → List Values → ℕ
count_if f [] = 0
count_if f (r ∷ rs) = count_if f rs + (if f r then 1 else 0)

-- What is documented of the two statements, where they are executed: an INSERT adds one row, of the
-- values in their columns and defaults in the others, and a SELECT finds the rows that match.
pub record IsTable {ℓ} {S : Type ℓ} (table : Table S) : Type ℓ where
  pub same : String → Text → Text → Bool
  pub defaults : Values
  pub rows : S → List Values
  pub insert_rows :
      (columns : List String) (values : List Text) (s : S)
      → (table.insert columns values s).0 ≡ true
      → rows (table.insert columns values s).1 ≡ (row_of columns values ++ defaults) ∷ rows s
  pub select_rows :
      (column : String) (c : Condition) (bound : Values) (s : S) (result : List Text)
      → table.select column c bound s ≡ some result
      → length result ≡ count_if (holds same c bound) (rows s)

found_sum : (b : Bool) (n : ℕ) → ltb 0 (n + (if b then 1 else 0)) ≡ b || ltb 0 n
found_sum true n = ground arith
found_sum false n = ground arith

module _ {ℓ} {S : Type ℓ} (table : Table S) (law : IsTable table) (put_time : ℕ → Text) where
  -- A login whose select does not throw succeeds where some row has the name and the hash.
  login_lem :
      (name hash : Text) (s : S) (result : List Text)
      → table.select "username" credentials (bindings name hash) s ≡ some result
      → login_user table name hash s
        ≡ ltb 0 (count_if (holds law.same credentials (bindings name hash)) (law.rows s))
  unfolding login_user
  login_lem name hash s result e =
      ap found e
      ∙ ap (ltb 0) (law.select_rows "username" credentials (bindings name hash) s result e)

  -- After a registration that returned true, and where the selects do not throw, a login succeeds
  -- with the name and the hash that were registered, as the server compares them, and with those
  -- with which it succeeded before, and with no others.
  pub register-login :
      (u : UserInfo) (name hash : Text) (s : S) (before after : List Text)
      → (register_user table put_time u s).0 ≡ true
      → table.select "username" credentials (bindings name hash) s ≡ some before
      → table.select "username" credentials
          (bindings name hash)
          (register_user table put_time u s).1
        ≡ some after
      → login_user table name hash (register_user table put_time u s).1
        ≡ (law.same "username" u.username name && law.same "password_hash" u.password_hash hash)
          || login_user table name hash s
  unfolding register_user
  register-login u name hash s before after done e e' =
      let matches = holds law.same credentials (bindings name hash) in
      let given = u.username ∷ u.password_hash ∷ u.status ∷ put_time u.create_time ∷ [] in
      let same_login =
        law.same "username" u.username name && law.same "password_hash" u.password_hash hash in
      login_lem name hash (table.insert columns given s).1 after e'
      ∙ ap (λ rs. ltb 0 (count_if matches rs)) (law.insert_rows columns given s done)
      ∙ found_sum same_login (count_if matches (law.rows s))
      ∙ ap (λ b. same_login || b) (sym (login_lem name hash s before e))
