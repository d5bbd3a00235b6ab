-- ===== src/Formats/Archive/Safe.antt =====
-- An archive that passes the tests is safe to unpack.
use semiconductor_agent_know.Base.{
  ℕ, ◌+◌, ◌*◌, ◌≤◌, String, false, Option, none, some, List, [], ◌∷◌, All, eqb, ltb, contains,
  length, ◌≡◌, refl, arith, inl, inr, Bool-cases, Option-cases, string_eq,
}
use semiconductor_agent_know.Base.Result.{ok, Result-cases}
use semiconductor_agent_know.Formats.{SourceFormat, RoutingPolicy, ZipInfo}
use semiconductor_agent_know.Formats.Archive.{entry_fault, entries_from, inspect_office}

abbrev pub sizes : List ZipInfo → ℕ
sizes [] = 0
sizes (i ∷ is) = i.file_size + sizes is

module _ (policy : RoutingPolicy) where
  -- What is asked of an entry: a path that stays inside, no encryption, and no more contents than
  -- the ratio allows.
  abbrev pub SafeEntry : ZipInfo → Type 0
  SafeEntry i =
      (i.is_absolute ≡ false)
      × (i.has_drive ≡ false)
      × (contains i.parts ".." ≡ false)
      × (i.is_encrypted ≡ false)
      × (i.file_size ≤ policy.max_office_compression_ratio * i.compress_size)

  entry_fault-SafeEntry :
      (i : ZipInfo) (total : ℕ) (names : List (List String))
      → entry_fault policy i total names ≡ none
      → SafeEntry i × (total ≤ policy.max_office_uncompressed_bytes)
  unfolding entry_fault
  entry_fault-SafeEntry i total names h = elim (Bool-cases (eqb i.file_size 0)) [
    | inl z ↦
        ((ground arith, ground arith, ground arith, ground arith, ground (arith, z)), ground arith)
    | inr z ↦ ((ground arith, ground arith, ground arith, ground arith, ground arith), ground arith)
  ]

  entries_from-SafeEntry :
      (infos : List ZipInfo) (total : ℕ) (names all_names : List (List String))
      → total ≤ policy.max_office_uncompressed_bytes
      → entries_from policy infos total names ≡ ok all_names
      → All SafeEntry infos × (total + sizes infos ≤ policy.max_office_uncompressed_bytes)
  unfolding entries_from
  entries_from-SafeEntry [] total names all_names w h = (tt, omega arith)
  entries_from-SafeEntry (i ∷ is) total names all_names w h =
      let size = total + i.file_size in
      elim (Option-cases (entry_fault policy i size names)) [
        | inr (e, f) ↦ absurd (ground (arith, f))
        | inl f ↦
            let (safe, fits) = entry_fault-SafeEntry i size names f in
            let (rest, sum) =
              entries_from-SafeEntry is size (i.parts ∷ names) all_names fits (ground (arith, f)) in
            ((safe, rest), omega (arith, sum))
      ]

  -- An archive that is inspected without an error has no more entries than allowed, unpacks to no
  -- more bytes than allowed, and each entry is not encrypted, keeps to the ratio and stays inside: it
  -- is not absolute, does not go up to a parent and starts with no drive.
  pub inspect_office-SafeEntry :
      (directory : Option (List ZipInfo)) {family : Option SourceFormat}
      → inspect_office policy directory ≡ ok family
      → (infos : List ZipInfo) × (directory ≡ some infos)
        × (length infos ≤ policy.max_office_entries)
        × (sizes infos ≤ policy.max_office_uncompressed_bytes)
        × All SafeEntry infos
  unfolding inspect_office
  inspect_office-SafeEntry none h = absurd (ground (arith, h))
  inspect_office-SafeEntry (some infos) h =
      elim (Bool-cases (ltb policy.max_office_entries (length infos))) [
        | inl m ↦ absurd (ground (arith, m))
        | inr m ↦ elim (Result-cases (entries_from policy infos 0 [])) [
          | inr (e, f) ↦ absurd (ground (arith, m, f))
          | inl (names, f) ↦
              let (safe, sum) = entries_from-SafeEntry infos 0 [] names (omega arith) f in
              (infos, refl, ground arith, omega (arith, sum), safe)
        ]
      ]
