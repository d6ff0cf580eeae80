-- ===== src/Tests/Settings.antt =====
-- The settings file, with a JSON library whose texts are lists of instructions that build the value.
use iocp_j_server.Base.{
  ℕ, ◌+◌, ◌≡◌, refl, ap, ◌∙◌, Bool, true, false, none, some, List, [], ◌∷◌, length, map, Bytes,
  codes, bytes_eq, bytes_eq_refl, uncaught, Outcome, ok, fault, if◌then◌else◌, ◌==◌,
}
use iocp_j_server.Hubs.{Machine}
use iocp_j_server.Settings.{JsonFiles, Files, create_server_setting_files, main}
use iocp_j_server.Settings.Laws.{IsJsonFiles}
use iocp_j_server.Settings.Written.{configured, lobby_arguments, main-starts}
use iocp_j_server.Network.{NetworkManager}
use iocp_j_server.Network.Ownership.{accepts, pool}
use iocp_j_server.Startup.{read_arguments, lobby_defaults}
use iocp_j_server.Tests.Starting.{split_spaces, split_spaces-IsSplitting, launcher}
use iocp_j_server.Tests.Connections.{memory, memory-long, fine}

-- An object is its first field and the others; null ends it.
data Value : Type 0 where
  nothing : Value
  number : ℕ → Value
  text : Bytes → Value
  texts : List Bytes → Value
  numbers : List ℕ → Value
  field : Bytes → Value → Value → Value

abbrev is_object : Value → Bool
is_object nothing = true
is_object (field name v rest) = true
is_object v = false

abbrev index : Value → Bytes → Outcome Value
index nothing name = ok nothing
index (field name' v rest) name =
    let deeper = index rest name in if bytes_eq name' name then ok v else deeper
index v name = fault uncaught

abbrev assign : Value → Bytes → Value → Outcome Value
assign x name v = if is_object x then ok (field name v x) else fault uncaught

abbrev is_zero : Value → Bool
is_zero (number n) = n == 0
is_zero v = false

abbrev as_text : Value → Outcome Bytes
as_text (text s) = ok s
as_text v = fault uncaught

abbrev as_number : Value → Outcome ℕ
as_number (number n) = ok n
as_number v = fault uncaught

abbrev as_texts : Value → Outcome (List Bytes)
as_texts (texts ss) = ok ss
as_texts v = fault uncaught

abbrev as_numbers : Value → Outcome (List ℕ)
as_numbers (numbers ns) = ok ns
as_numbers v = fault uncaught

-- The instructions, each a code and an operand, on a stack of values.
abbrev add_character : ℕ → List Value → List Value
add_character c (text s ∷ vs) = text (c ∷ s) ∷ vs
add_character c vs = vs

abbrev add_text : List Value → List Value
add_text (text s ∷ texts ss ∷ vs) = texts (s ∷ ss) ∷ vs
add_text vs = vs

abbrev add_number : ℕ → List Value → List Value
add_number n (numbers ns ∷ vs) = numbers (n ∷ ns) ∷ vs
add_number n vs = vs

abbrev add_field : List Value → List Value
add_field (text name ∷ v ∷ rest ∷ vs) = field name v rest ∷ vs
add_field vs = vs

abbrev do_one : ℕ → ℕ → List Value → List Value
do_one code n vs =
    if code == 0
    then nothing ∷ vs
    else if code == 1
    then number n ∷ vs
    else if code == 2
    then text [] ∷ vs
    else if code == 3
    then add_character n vs
    else if code == 4
    then texts [] ∷ vs
    else if code == 5
    then add_text vs
    else if code == 6
    then numbers [] ∷ vs
    else if code == 7
    then add_number n vs
    else add_field vs

abbrev build : Bytes → List Value → List Value
build (code ∷ n ∷ t) vs = build t (do_one code n vs)
build _ vs = vs

abbrev text_code : Bytes → Bytes → Bytes
text_code [] t = 2 ∷ 0 ∷ t
text_code (c ∷ s) t = text_code s (3 ∷ c ∷ t)

abbrev texts_code : List Bytes → Bytes → Bytes
texts_code [] t = 4 ∷ 0 ∷ t
texts_code (s ∷ ss) t = texts_code ss (text_code s (5 ∷ 0 ∷ t))

abbrev numbers_code : List ℕ → Bytes → Bytes
numbers_code [] t = 6 ∷ 0 ∷ t
numbers_code (n ∷ ns) t = numbers_code ns (7 ∷ n ∷ t)

abbrev value_code : Value → Bytes → Bytes
value_code nothing t = 0 ∷ 0 ∷ t
value_code (number n) t = 1 ∷ n ∷ t
value_code (text s) t = text_code s t
value_code (texts ss) t = texts_code ss t
value_code (numbers ns) t = numbers_code ns t
value_code (field name v rest) t = value_code rest (value_code v (text_code name (8 ∷ 0 ∷ t)))

abbrev only : List Value → Outcome Value
only (v ∷ vs) = ok v
only [] = fault uncaught

abbrev built : JsonFiles
built = record {
  Json = Value;
  null = nothing;
  of_string = text;
  of_int = number;
  of_strings = texts;
  of_ints = numbers;
  is_zero = is_zero;
  index = index;
  assign = assign;
  get_string = as_text;
  get_int = as_number;
  get_strings = as_texts;
  get_ints = as_numbers;
  dump = λ v. ok (value_code v []);
  parse = λ t. only (build t []);
}

build-text : (s t : Bytes) (vs : List Value) → build (text_code s t) vs ≡ build t (text s ∷ vs)
build-text [] t vs = refl
build-text (c ∷ s) t vs = build-text s (3 ∷ c ∷ t) vs

build-texts :
    (ss : List Bytes) (t : Bytes) (vs : List Value)
    → build (texts_code ss t) vs ≡ build t (texts ss ∷ vs)
build-texts [] t vs = refl
build-texts (s ∷ ss) t vs =
    build-texts ss (text_code s (5 ∷ 0 ∷ t)) vs ∙ build-text s (5 ∷ 0 ∷ t) (texts ss ∷ vs)

build-numbers :
    (ns : List ℕ) (t : Bytes) (vs : List Value)
    → build (numbers_code ns t) vs ≡ build t (numbers ns ∷ vs)
build-numbers [] t vs = refl
build-numbers (n ∷ ns) t vs = build-numbers ns (7 ∷ n ∷ t) vs

build-value :
    (v : Value) (t : Bytes) (vs : List Value) → build (value_code v t) vs ≡ build t (v ∷ vs)
build-value nothing t vs = refl
build-value (number n) t vs = refl
build-value (text s) t vs = build-text s t vs
build-value (texts ss) t vs = build-texts ss t vs
build-value (numbers ns) t vs = build-numbers ns t vs
build-value (field name v rest) t vs =
    build-value rest (value_code v (text_code name (8 ∷ 0 ∷ t))) vs
    ∙ build-value v (text_code name (8 ∷ 0 ∷ t)) (rest ∷ vs)
    ∙ build-text name (8 ∷ 0 ∷ t) (v ∷ rest ∷ vs)

built-IsJsonFiles : IsJsonFiles built
built-IsJsonFiles = record {
  is_object = is_object;
  is_object-null = refl;
  index-null = λ name. refl;
  assign-object = λ x v name h.
      (field name v x, rw h refl, refl, refl, rw (bytes_eq_refl name) refl, λ other ne. rw ne refl);
  is_zero-of_int = refl;
  is_zero-null = refl;
  get_string-of_string = λ s. refl;
  get_int-of_int = λ n. refl;
  get_strings-of_strings = λ ss. refl;
  get_ints-of_ints = λ ns. refl;
  dump-IsAscii = λ v h. (value_code v [], refl, ap only (build-value v [] []));
}

abbrev pub machine : Machine
machine = record { memory = memory; found = true; handles = λ a. 100 + a; answers = λ i. fine }

main-starts_example :
    (files : Files) × (manager : NetworkManager) × (lines : List Bytes)
    × (create_server_setting_files built (codes "f") true (λ f. none) ≡ ok files)
    × (main built (codes "f") files machine launcher ≡ ok (some (manager, lines, configured 2)))
    × (length manager.posted ≡ 10)
    × (accepts manager.heap manager.posted ≡ 10)
    × (length (pool manager) ≡ 90)
    × (map (λ line. read_arguments lobby_defaults (split_spaces line)) lines
        ≡ some (lobby_arguments (codes "Lobby1") 9091)
          ∷ some (lobby_arguments (codes "Lobby2") 9092)
          ∷ [])
main-starts_example =
    main-starts built built-IsJsonFiles (codes "f") (λ f. none) machine launcher split_spaces
      split_spaces-IsSplitting lobby_defaults memory-long refl (λ i. (refl, refl))
