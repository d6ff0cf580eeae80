-- ===== src/Json.antt =====
-- Common/Include/Json/JsonData.h. nlohmann::json and the type `float` are parameters: the operations
-- that the code calls, and what is documented of them.
use iocp_j_server.Base.{
  ℕ, ◌≡◌, Bool, List, [], ◌∷◌, Bytes, codes, out_of_bounds, uncaught, Outcome, ok, fault, ◌>>=◌,
  bytes_eq, if◌then◌else◌,
}

-- `float`, as far as the code computes with it. An `int` is the number of its bit pattern.
pub record Floats : Type 1 where
  pub F : Type 0
  pub of_int : ℕ → F
  pub max : F
  pub div : F → F → F
  pub lt : F → F → Bool
  pub eq : F → F → Bool

-- `nlohmann::json`. `at` is the read by `operator[]`, whose result for a missing name is undefined;
-- a `get` of another type than the value's throws.
pub record JsonLibrary (f : Floats) : Type 1 where
  pub Json : Type 0
  pub of_string : Bytes → Json
  pub of_int : ℕ → Json
  pub of_float : f.F → Json
  pub object : List (Bytes × Json) → Json
  pub at : Json → Bytes → Outcome Json
  pub get_string : Json → Outcome Bytes
  pub get_int : Json → Outcome ℕ
  pub get_bool : Json → Outcome Bool
  pub get_float : Json → Outcome f.F
  pub dump : Json → Outcome Bytes
  pub parse : Bytes → Outcome Json

-- The member of that name in an initializer list.
abbrev pub member {ℓ} : {J : Type ℓ} → Bytes → List (Bytes × J) → Outcome J
member name [] = fault out_of_bounds
member name ((k, j) ∷ js) = if bytes_eq name k then ok j else member name js

-- What is documented of nlohmann::json: a value reads back as the type that it was made from, the
-- conversion of a number to `bool` is a type_error, and a text that was dumped parses to the value.
pub record IsJson (f : Floats) (j : JsonLibrary f) : Type 0 where
  pub at-object :
      (fields : List (Bytes × j.Json)) (name : Bytes)
      → j.at (j.object fields) name ≡ member name fields
  pub get_string-of_string : (s : Bytes) → j.get_string (j.of_string s) ≡ ok s
  pub get_int-of_int : (n : ℕ) → j.get_int (j.of_int n) ≡ ok n
  pub get_float-of_float : (x : f.F) → j.get_float (j.of_float x) ≡ ok x
  pub get_bool-of_int : (n : ℕ) → j.get_bool (j.of_int n) ≡ fault uncaught
  pub parse-dump : (x : j.Json) (s : Bytes) → j.dump x ≡ ok s → j.parse s ≡ ok x

module _ (f : Floats) where
  -- `Json::LobbyInfo`
  pub record LobbyInfo : Type 0 where
    pub key : Bytes
    pub port : ℕ
    pub current : ℕ
    pub remain : ℕ
    pub active : Bool
    pub response_speed : f.F

module _ (f : Floats) (j : JsonLibrary f) where
  -- The constructor from a JSON value, its reads in the source's order.
  unfoldable pub lobby_info : j.Json → Outcome (LobbyInfo f)
  lobby_info json = do
    key_member ← j.at json (codes "key")
    key ← j.get_string key_member
    port_member ← j.at json (codes "port")
    port ← j.get_int port_member
    current_member ← j.at json (codes "current")
    current ← j.get_int current_member
    remain_member ← j.at json (codes "remain")
    remain ← j.get_int remain_member
    active_member ← j.at json (codes "active")
    active ← j.get_bool active_member
    speed_member ← j.at json (codes "response_speed")
    speed ← j.get_float speed_member
    ok (record {
      key = key;
      port = port;
      current = current;
      remain = remain;
      active = active;
      response_speed = speed;
    })

  -- `DataToJson`, whose `active` is an `int`.
  unfoldable pub data_to_json : Bytes → ℕ → ℕ → ℕ → ℕ → f.F → j.Json
  data_to_json key port current remain active response_speed = j.object (
      (codes "key", j.of_string key)
      ∷ (codes "port", j.of_int port)
      ∷ (codes "current", j.of_int current)
      ∷ (codes "remain", j.of_int remain)
      ∷ (codes "active", j.of_int active)
      ∷ (codes "response_speed", j.of_float response_speed)
      ∷ [])

  -- What `DataToJson` makes cannot be read by the constructor.
  pub lobby_info-data_to_json :
      IsJson f j
      → (key : Bytes) (port current remain active : ℕ) (speed : f.F)
      → lobby_info (data_to_json key port current remain active speed) ≡ fault uncaught
  unfolding lobby_info data_to_json
  lobby_info-data_to_json laws key port current remain active speed =
      simp (laws.at-object, laws.get_string-of_string, laws.get_int-of_int, laws.get_bool-of_int)
