-- ===== src/Settings/Stored.antt =====
-- What a sequence of assignments to settings leaves to be read.
use iocp_j_server.Base.{
  ◌≡◌, refl, ap, Bool, true, false, ◌&&◌, Bool-cases, inl, inr, List, [], ◌∷◌, Bytes, bytes_eq,
  bytes_eq→eq, Outcome, ok, if◌then◌else◌, ◌∙◌, sym,
}
use iocp_j_server.Settings.{JsonFiles, Setting, set_one, set_all, default_settings, look}
use iocp_j_server.Settings.Laws.{
  IsAscii, null_IsAscii, string_IsAscii, int_IsAscii, strings_IsAscii, ints_IsAscii,
  assigned_IsAscii, IsJsonFiles, ascii,
}

module _ (j : JsonFiles) (laws : IsJsonFiles j) where
  abbrev pub IsNice : j.Json → Type 0
  IsNice x = (laws.is_object x ≡ true) × IsAscii j x

  -- Sections of names, with ASCII texts throughout.
  pub record IsConfig (config : j.Json) : Type 0 where
    pub nice : IsNice config
    pub sections : (name : Bytes) → (x : j.Json) × (j.index config name ≡ ok x) × IsNice x

  pub null-IsConfig : IsConfig j.null
  null-IsConfig = record {
    nice = (laws.is_object-null, null_IsAscii);
    sections = λ name. (j.null, laws.index-null name, (laws.is_object-null, null_IsAscii));
  }

  abbrev pub AsciiSetting : Setting j → Type 0
  AsciiSetting s = (ascii s.section ≡ true) × (ascii s.name ≡ true) × IsAscii j s.value

  -- Whether it is this setting that the names address.
  abbrev pub addressed : Setting j → Bytes → Bytes → Bool
  addressed s a b = bytes_eq s.section a && bytes_eq s.name b

  set_one-IsConfig :
      (s : Setting j) (config : j.Json)
      → AsciiSetting s
      → IsConfig config
      → (y : j.Json) × (set_one j s config ≡ ok y)
        × IsConfig y
        × (j.is_zero y ≡ false)
        × ((a b : Bytes)
            → look j y a b ≡ (if addressed s a b then ok s.value else look j config a b))
  unfolding set_one
  set_one-IsConfig s config (section_ascii, name_ascii, value_ascii) is_config =
      let (section, there, (section_object, section_text)) = is_config.sections s.section in
      let (changed, changes, changed_object, u, here, others) =
        laws.assign-object section s.value s.name section_object in
      let (y, assigns, y_object, no_zero, y_here, y_others) =
        laws.assign-object config changed s.section is_config.nice.0 in
      let changed_text : IsAscii j changed =
        assigned_IsAscii s.name section_text name_ascii value_ascii changes in
      (
        y,
        rw (there, changes) assigns,
        record {
          nice = (
            y_object,
            assigned_IsAscii s.section is_config.nice.1 section_ascii changed_text assigns,
          );
          sections = λ name. elim (Bool-cases (bytes_eq s.section name)) [
            | inl same ↦ (
              changed,
              ap (j.index y) (sym (bytes_eq→eq s.section name same)) ∙ y_here,
              (changed_object, changed_text),
            )
            | inr ne ↦
                let (x, reads, nice) = is_config.sections name in
                (x, y_others name ne ∙ reads, nice)
          ];
        },
        no_zero,
        λ a b. elim (Bool-cases (bytes_eq s.section a)) [
          | inl same ↦
              let at_a = ap (j.index y) (sym (bytes_eq→eq s.section a same)) ∙ y_here in
              let was_at_a = ap (j.index config) (sym (bytes_eq→eq s.section a same)) ∙ there in
              elim (Bool-cases (bytes_eq s.name b)) [
                | inl same' ↦
                    rw (same, same', at_a)
                      (ap (j.index changed) (sym (bytes_eq→eq s.name b same')) ∙ here)
                | inr ne ↦ rw (same, ne, at_a, was_at_a) (others b ne)
              ]
          | inr ne ↦ rw (ne, y_others a ne) refl
        ],
      )

  -- What the names read as after those settings, where they read as `before` without them.
  abbrev pub found : List (Setting j) → Bytes → Bytes → Outcome j.Json → Outcome j.Json
  found [] a b before = before
  found (s ∷ ss) a b before = found ss a b (if addressed s a b then ok s.value else before)

  abbrev pub AllAscii : List (Setting j) → Type 0
  AllAscii [] = Unit {0}
  AllAscii (s ∷ ss) = AsciiSetting s × AllAscii ss

  pub set_all-found :
      (ss : List (Setting j)) (config : j.Json)
      → AllAscii ss
      → IsConfig config
      → j.is_zero config ≡ false
      → (y : j.Json) × (set_all j ss config ≡ ok y)
        × IsConfig y
        × (j.is_zero y ≡ false)
        × ((a b : Bytes) → look j y a b ≡ found ss a b (look j config a b))
  unfolding set_all
  set_all-found [] config texts is_config no_zero = (config, refl, is_config, no_zero, λ a b. refl)
  set_all-found (s ∷ ss) config (text, texts) is_config no_zero =
      let (changed, sets, changed_config, changed_no_zero, reads) =
        set_one-IsConfig s config text is_config in
      let (y, goes_on, y_config, y_no_zero, y_reads) =
        set_all-found ss changed texts changed_config changed_no_zero in
      (y, rw sets goes_on, y_config, y_no_zero, λ a b. y_reads a b ∙ ap (found ss a b) (reads a b))

  pub default_settings-AllAscii : AllAscii (default_settings j)
  default_settings-AllAscii = search (string_IsAscii, int_IsAscii, strings_IsAscii, ints_IsAscii)
