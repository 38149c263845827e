-- ===== src/Database.antt =====
-- Database of include/chat/Database.hpp, with UserInfo of include/chat/UserInfo.hpp. The server and
-- the connector for MySQL are a parameter: what an INSERT and a SELECT on the table `user_log` do.
-- So is the text that a point in time is put as. A string is the list of its bytes.
pub mod Logins
mod Tests
use Prim.Native.String.{String}
use cxx.Common.{ℕ, Bool, true, false, Option, none, some, List, [], ◌∷◌, length, ltb}

abbrev pub Text : Type 0
Text = List ℕ

-- The point in time is a number of ticks of the clock.
pub record UserInfo : Type 0 where
  pub username : Text
  pub password_hash : Text
  pub status : Text
  pub friends : List Text
  pub create_time : ℕ

-- The members that the constructor sets: what it was given, and where the session and the table are.
pub record Members : Type 0 where
  pub host : String
  pub user : String
  pub password : String
  pub database : String
  pub session_host : String
  pub session_port : ℕ
  pub session_user : String
  pub session_password : String
  pub schema : String
  pub table : String

-- The constructor; that it throws where there is no connection is left to the connector.
unfoldable pub new : String → String → String → String → Members
new host user password database = record {
  host = host;
  user = user;
  password = password;
  database = database;
  session_host = "localhost";
  session_port = 3306;
  session_user = "sw";
  session_password = "0";
  schema = "transfer";
  table = "user_log";
}

-- The condition of a `where`, as the expression that the connector reads from its text: a column is
-- compared with the value that is bound to a name, and AND and OR join two conditions.
pub data Condition : Type 0 where
  is_value : String → String → Condition
  and : Condition → Condition → Condition
  or : Condition → Condition → Condition

-- `insert`: the columns of `insert` and the values of `values`, for a row; whether it was executed,
-- or has thrown mysqlx::Error, and what the server holds afterwards. `select`: the column, the
-- condition and the names that are bound to values; the column of the rows that match, or `none` if
-- it has thrown.
pub record Table {ℓ} (S : Type ℓ) : Type ℓ where
  pub insert : List String → List Text → S → Bool × S
  pub select : String → Condition → List (String × Text) → S → Option (List Text)

-- The columns that registerUser gives a value, in the order of the values
abbrev pub columns : List String
columns = "username" ∷ "password_hash" ∷ "status" ∷ "create_time" ∷ []

-- "username = :username AND password_hash = :password_hash"
abbrev pub credentials : Condition
credentials = and (is_value "username" "username") (is_value "password_hash" "password_hash")

-- The two calls of `bind`
abbrev pub bindings : Text → Text → List (String × Text)
bindings username password_hash = ("username", username) ∷ ("password_hash", password_hash) ∷ []

abbrev pub found : Option (List Text) → Bool
found none = false
found (some result) = ltb 0 (length result)

module _ {ℓ} {S : Type ℓ} (table : Table S) (put_time : ℕ → Text) where
  -- registerUser
  unfoldable pub register_user : UserInfo → S → Bool × S
  register_user u s =
      table.insert columns (u.username ∷ u.password_hash ∷ u.status ∷ put_time u.create_time ∷ []) s

module _ {ℓ} {S : Type ℓ} (table : Table S) where
  -- loginUser
  unfoldable pub login_user : Text → Text → S → Bool
  login_user username password_hash s =
      found (table.select "username" credentials (bindings username password_hash) s)
