-- ===== src/Settings/Laws.antt =====
-- What the settings file relies on of nlohmann::json.
use iocp_j_server.Base.{ℕ, ◌≡◌, Bool, true, false, ◌&&◌, List, [], ◌∷◌, Bytes, bytes_eq, ltb, ok}
use iocp_j_server.Settings.{JsonFiles}

abbrev pub ascii : Bytes → Bool
ascii [] = true
ascii (c ∷ s) = ltb c 128 && ascii s

abbrev pub all_ascii : List Bytes → Bool
all_ascii [] = true
all_ascii (s ∷ ss) = ascii s && all_ascii ss

module _ (j : JsonFiles) where
  -- A value whose strings and names are all ASCII.
  pub data IsAscii : j.Json → Type 0 where
    null_IsAscii : IsAscii j.null
    string_IsAscii : (s : Bytes) → ascii s ≡ true → IsAscii (j.of_string s)
    int_IsAscii : (n : ℕ) → IsAscii (j.of_int n)
    strings_IsAscii : (ss : List Bytes) → all_ascii ss ≡ true → IsAscii (j.of_strings ss)
    ints_IsAscii : (ns : List ℕ) → IsAscii (j.of_ints ns)
    assigned_IsAscii :
        {x v y : j.Json} (name : Bytes)
        → IsAscii x
        → ascii name ≡ true
        → IsAscii v
        → j.assign x name v ≡ ok y
        → IsAscii y

  -- What is documented of nlohmann::json: names can be assigned to in null and in an object, which is
  -- then an object and not the number 0, and reads back what was assigned last; a name that is missing
  -- reads as null; a value reads back as the type that it was made from; and what has only ASCII texts
  -- is dumped to a text that parses to it.
  pub record IsJsonFiles : Type 1 where
    pub is_object : j.Json → Bool
    pub is_object-null : is_object j.null ≡ true
    pub index-null : (name : Bytes) → j.index j.null name ≡ ok j.null
    pub assign-object :
        (x v : j.Json) (name : Bytes)
        → is_object x ≡ true
        → (y : j.Json) × (j.assign x name v ≡ ok y)
          × (is_object y ≡ true)
          × (j.is_zero y ≡ false)
          × (j.index y name ≡ ok v)
          × ((other : Bytes) → bytes_eq name other ≡ false → j.index y other ≡ j.index x other)
    pub is_zero-of_int : j.is_zero (j.of_int 0) ≡ true
    pub is_zero-null : j.is_zero j.null ≡ false
    pub get_string-of_string : (s : Bytes) → j.get_string (j.of_string s) ≡ ok s
    pub get_int-of_int : (n : ℕ) → j.get_int (j.of_int n) ≡ ok n
    pub get_strings-of_strings : (ss : List Bytes) → j.get_strings (j.of_strings ss) ≡ ok ss
    pub get_ints-of_ints : (ns : List ℕ) → j.get_ints (j.of_ints ns) ≡ ok ns
    pub dump-IsAscii :
        (x : j.Json) → IsAscii x → (s : Bytes) × (j.dump x ≡ ok s) × (j.parse s ≡ ok x)
