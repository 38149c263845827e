-- ===== src/Database/Tests.antt =====
-- A table that is a list of rows, each with every column.
use Prim.Native.String.{String}
use cxx.Common.{
  ℕ, ◌≡◌, refl, ap, ◌∙◌, Bool, true, Option, none, some, List, [], ◌∷◌, ◌++◌, length, nat_eq,
  list_beq, if◌then◌else◌, arith, ◌+◌,
}
use cxx.Database.{Text, UserInfo, Condition, Table, register_user, login_user}
use cxx.Database.Logins.{Values, IsTable, register-login, row_of, holds, lookup, count_if}

abbrev same : String → Text → Text → Bool
same column v w = list_beq v w

abbrev value_or_empty : Option Text → Text
value_or_empty none = []
value_or_empty (some v) = v

abbrev matching : String → Condition → Values → List Values → List Text
matching column c bound [] = []
matching column c bound (r ∷ rs) =
    matching column c bound rs
    ++ (if holds same c bound r then value_or_empty (lookup column r) ∷ [] else [])

abbrev rows : Table (List Values)
rows = record {
  insert = λ columns values s. (true, (row_of columns values ++ []) ∷ s);
  select = λ column c bound s. some (matching column c bound s);
}

length-last :
    (b : Bool) (v : Text) (vs : List Text)
    → length (vs ++ (if b then v ∷ [] else [])) ≡ length vs + (if b then 1 else 0)
length-last b v [] = ground arith
length-last b v (w ∷ vs) = omega (arith, length-last b v vs)

length-matching :
    (column : String) (c : Condition) (bound : Values) (s : List Values)
    → length (matching column c bound s) ≡ count_if (holds same c bound) s
length-matching column c bound [] = refl
length-matching column c bound (r ∷ rs) =
    length-last (holds same c bound r) (value_or_empty (lookup column r))
      (matching column c bound rs)
    ∙ ap (λ n. n + (if holds same c bound r then 1 else 0)) (length-matching column c bound rs)

same_result : (a b : List Text) → some a ≡ some b → b ≡ a
same_result a b e = cc

rows-IsTable : IsTable rows
rows-IsTable = record {
  same = same;
  defaults = [];
  rows = λ s. s;
  insert_rows = λ columns values s e. refl;
  select_rows = λ column c bound s result e.
      ap length (same_result (matching column c bound s) result e)
      ∙ length-matching column c bound s;
}

abbrev put : ℕ → Text
put t = t ∷ []

abbrev someone : UserInfo
someone = record {
  username = 7 ∷ [];
  password_hash = 8 ∷ [];
  status = [];
  friends = [];
  create_time = 3;
}

register-login_example :
    login_user rows (7 ∷ []) (8 ∷ []) (register_user rows put someone []).1 ≡ true
unfolding login_user rows-IsTable
register-login_example =
    register-login rows rows-IsTable put someone (7 ∷ []) (8 ∷ []) [] [] ((7 ∷ []) ∷ [])
      (unfold register_user in refl) refl (unfold register_user in refl)
