-- ===== src/Bundle/Payload/Identities.antt =====
-- The identities of the objects that src/portable_bundle.rs reads of a payload.
use codex_memoryd.Prelude.{
  String, Bool, true, false, not, ◌||◌, ◌≡◌, refl, inl, inr, Option, none, some, List, [], ◌∷◌,
  ◌++◌, All, All-imp, All-append, map, ap, subst, sym, eq_iff, arith, mem_str, Bool-cases,
  Option-cases,
}
use codex_memoryd.Prelude.Distinct.{Distinct}
use codex_memoryd.Prelude.StrSet.{set_insert, mem_str-set_insert}
use codex_memoryd.Errors.{ok, bind_succeeds, ensure-eq-ok}
use codex_memoryd.Bundle.Json.{Value}
use codex_memoryd.Bundle.Manifest.{ObjectKind, as_str, kind_for_member, Descriptor}
use codex_memoryd.Bundle.Objects.{ObjectEnvelope}
use codex_memoryd.Bundle.Reference.{PortableRef, ref_key, validate}
use codex_memoryd.Bundle.Payload.{
  Reader, Seen, nothing_seen, split_inclusive, is_out_of_order, insert_ref, put_present,
  insert_aliases, insert_identities, identified, read_line, validate_lines, validate_members,
}

-- the identities of an object: its own and those of its aliases
abbrev pub keys_of : ObjectEnvelope Value → List String
keys_of e = ref_key e.portable_ref ∷ map ref_key e.aliases

abbrev pub all_keys : List (ObjectEnvelope Value) → List String
all_keys [] = []
all_keys (e ∷ es) = keys_of e ++ all_keys es

abbrev pub member_keys : List (List (ObjectEnvelope Value)) → List String
member_keys [] = []
member_keys (es ∷ ess) = all_keys es ++ member_keys ess

false_of_not : (b : Bool) → not b ≡ true → b ≡ false
false_of_not b h = ground arith

mem_str-++ :
    (k : String) (xs ys : List String) → mem_str k (xs ++ ys) ≡ (mem_str k xs || mem_str k ys)
mem_str-++ k [] ys = refl
mem_str-++ k (x ∷ xs) ys = ground (arith, mem_str-++ k xs ys)

-- a text that each of the others is apart from
apart :
    (x : String) (xs ys : List String)
    → All (λ y. mem_str y (x ∷ xs) ≡ false) ys
    → mem_str x ys ≡ false
apart x xs [] h = refl
apart x xs (y ∷ ys) (h, hs) = ground (arith, apart x xs ys hs, eq_iff x y, eq_iff y x)

Distinct-++ :
    (xs ys : List String)
    → Distinct xs
    → Distinct ys
    → All (λ y. mem_str y xs ≡ false) ys
    → Distinct (xs ++ ys)
Distinct-++ [] ys d e h = e
Distinct-++ (x ∷ xs) ys (d, ds) e h = (
  (ground (arith, mem_str-++ x xs ys, apart x xs ys h)),
  Distinct-++ xs ys ds e (All-imp (λ y g. ground arith) ys h),
)

-- What a set has after texts that are new to it.
record Grows (old keys new : List String) : Type 0 where
  members : (k : String) → mem_str k new ≡ (mem_str k keys || mem_str k old)
  fresh : All (λ k. mem_str k old ≡ false) keys
  distinct : Distinct keys

Grows-trans : (a xs b ys c : List String) → Grows a xs b → Grows b ys c → Grows a (xs ++ ys) c
Grows-trans a xs b ys c g h = record {
  members = λ k. ground (arith, g.members k, h.members k, mem_str-++ k xs ys);
  fresh = All-append _ xs ys g.fresh (All-imp (λ k f. ground (arith, g.members k)) ys h.fresh);
  distinct =
      Distinct-++ xs ys g.distinct h.distinct
        (All-imp (λ k f. ground (arith, g.members k)) ys h.fresh);
}

Grows-insert :
    (a : List String) (k : String) → mem_str k a ≡ false → Grows a (k ∷ []) (set_insert k a)
Grows-insert a k h = record {
  members = λ j. ground (arith, mem_str-set_insert j k a);
  fresh = (h, tt);
  distinct = (refl, tt);
}

-- the loops add to the two sets
record Adds (s : Seen) (keys : List String) (s' : Seen) : Type 0 where
  refs : Grows s.refs keys s'.refs
  present : (k : String) → mem_str k s'.present ≡ (mem_str k keys || mem_str k s.present)

Adds-refl : (s : Seen) → Adds s [] s
Adds-refl s = record {
  refs = record { members = λ k. refl; fresh = tt; distinct = tt };
  present = λ k. refl;
}

Adds-trans :
    (s : Seen) (xs : List String) (t : Seen) (ys : List String) (u : Seen)
    → Adds s xs t
    → Adds t ys u
    → Adds s (xs ++ ys) u
Adds-trans s xs t ys u g h = record {
  refs = Grows-trans s.refs xs t.refs ys u.refs g.refs h.refs;
  present = λ k. ground (arith, g.present k, h.present k, mem_str-++ k xs ys);
}

-- an identity that both sets are given
Adds-put :
    (s : Seen) (key : String)
    → mem_str key s.refs ≡ false
    → Adds s (key ∷ []) (put_present key (record s { refs = set_insert key s.refs }))
Adds-put s key new = record {
  refs = Grows-insert s.refs key new;
  present = λ k. ground (arith, mem_str-set_insert k key s.present);
}

ok_injective : (s t : Seen) → ok s ≡ ok t → s ≡ t
ok_injective s t h = cc

insert_ref-inserts :
    (message key : String) (s s' : Seen)
    → insert_ref message key s ≡ ok s'
    → (mem_str key s.refs ≡ false) × (s' ≡ record s { refs = set_insert key s.refs })
unfolding insert_ref
insert_ref-inserts message key s s' h = elim (Bool-cases (mem_str key s.refs)) [
  | inl old ↦ absurd (ground arith)
  | inr new ↦ (new, ground arith)
]

insert_aliases-Adds :
    (kind : ObjectKind) (aliases : List PortableRef) (s s' : Seen)
    → insert_aliases kind aliases s ≡ ok s'
    → Adds s (map ref_key aliases) s'
unfolding insert_aliases
insert_aliases-Adds kind [] s s' h = subst (λ z. Adds s [] z) (ok_injective s s' h) (Adds-refl s)
insert_aliases-Adds kind (alias ∷ aliases) s s' h =
    let (_, _, h1) = bind_succeeds (validate alias (some (as_str kind))) _ _ h in
    let (s1, inserted, h2) =
      bind_succeeds (insert_ref "duplicate portable alias identity" (ref_key alias) s) _ _ h1 in
    let (new, same) = insert_ref-inserts _ _ s s1 inserted in
    let rest = insert_aliases-Adds kind aliases (put_present (ref_key alias) s1) s' h2 in
    Adds-trans s (ref_key alias ∷ []) (put_present (ref_key alias) s1) (map ref_key aliases) s'
      (subst (λ z. Adds s (ref_key alias ∷ []) (put_present (ref_key alias) z)) (sym same)
        (Adds-put s (ref_key alias) new))
      rest

insert_identities-Adds :
    (kind : ObjectKind) (e : ObjectEnvelope Value) (s s' : Seen)
    → insert_identities kind e s ≡ ok s'
    → Adds s (keys_of e) (identified kind e s')
unfolding insert_identities
insert_identities-Adds kind e s s' h =
    let key = ref_key e.portable_ref in
    let (s1, inserted, h1) =
      bind_succeeds (insert_ref "duplicate portable object identity" key s) _ _ h in
    let (new, same) = insert_ref-inserts _ _ s s1 inserted in
    let own =
      subst (λ z. Grows s.refs (key ∷ []) z.refs) (sym same) (Grows-insert s.refs key new) in
    let rest = insert_aliases-Adds kind e.aliases s1 s' h1 in
    let still = ap (λ z. z.present) same in
    record {
      refs = Grows-trans s.refs (key ∷ []) s1.refs (map ref_key e.aliases) s'.refs own rest.refs;
      present = λ k.
          ground (arith, mem_str-set_insert k key s'.present, rest.present k, ap (mem_str k) still);
    }

module _ (reader : Reader) where
  -- the objects of the lines, each read, valid and after the one before it
  abbrev pub ReadLines :
      ObjectKind → Option PortableRef → List String → List (ObjectEnvelope Value) → Type 0
  ReadLines kind previous [] [] = Unit
  ReadLines kind previous [] (e ∷ es) = ⊥
  ReadLines kind previous (line ∷ lines) [] = ⊥
  ReadLines kind previous (line ∷ lines) (e ∷ es) =
      (read_line reader kind line ≡ ok e)
      × (is_out_of_order previous e.portable_ref ≡ false)
      × ReadLines kind (some e.portable_ref) lines es

  validate_lines-Adds :
      (kind : ObjectKind) (previous : Option PortableRef) (lines : List String) (s s' : Seen)
      → validate_lines reader kind previous lines s ≡ ok s'
      → (es : List (ObjectEnvelope Value)) × ReadLines kind previous lines es
        × Adds s (all_keys es) s'
  unfolding validate_lines
  validate_lines-Adds kind previous [] s s' h =
      ([], tt, subst (λ z. Adds s [] z) (ok_injective s s' h) (Adds-refl s))
  validate_lines-Adds kind previous (line ∷ lines) s s' h =
      let (e, read, h1) = bind_succeeds (read_line reader kind line) _ _ h in
      let (s1, inserted, h2) = bind_succeeds (insert_identities kind e s) _ _ h1 in
      let (_, sorted, h3) = bind_succeeds _ _ _ h2 in
      let (es, reads, adds) =
        validate_lines-Adds kind (some e.portable_ref) lines (identified kind e s1) s' h3 in
      let order = ensure-eq-ok (not (is_out_of_order previous e.portable_ref)) _ _ sorted in
      (
        e ∷ es,
        (read, false_of_not _ order, reads),
        Adds-trans s (keys_of e) (identified kind e s1) (all_keys es) s'
            (insert_identities-Adds kind e s s1 inserted) adds,
      )

  module _ (members : String → String) where
    -- the objects of each member
    abbrev pub ReadMembers : List Descriptor → List (List (ObjectEnvelope Value)) → Type 0
    ReadMembers [] [] = Unit
    ReadMembers [] (es ∷ ess) = ⊥
    ReadMembers (d ∷ ds) [] = ⊥
    ReadMembers (d ∷ ds) (es ∷ ess) =
        ((kind : ObjectKind) × (kind_for_member d.path ≡ some kind)
          × ReadLines kind none (split_inclusive (members d.path)) es)
        × ReadMembers ds ess

    validate_members-Adds :
        (ds : List Descriptor) (s s' : Seen)
        → validate_members reader members ds s ≡ ok s'
        → (ess : List (List (ObjectEnvelope Value))) × ReadMembers ds ess
          × Adds s (member_keys ess) s'
    unfolding validate_members
    validate_members-Adds [] s s' h =
        ([], tt, subst (λ z. Adds s [] z) (ok_injective s s' h) (Adds-refl s))
    validate_members-Adds (d ∷ ds) s s' h = elim (Option-cases (kind_for_member d.path)) [
      | inl unknown ↦ absurd (ground arith)
      | inr (kind, known) ↦
          let (s1, lines, h1) =
            bind_succeeds (validate_lines reader kind none (split_inclusive (members d.path)) s) _ _
              (rw (known, validate_members) at h) in
          let (es, reads, adds) = validate_lines-Adds kind none _ s s1 lines in
          let (ess, more, rest) = validate_members-Adds ds s1 s' h1 in
          (
            es ∷ ess,
            ((kind, known, reads), more),
            Adds-trans s (all_keys es) s1 (member_keys ess) s' adds rest,
          )
    ]

    -- When the loop over the members accepts them, each line of each has been read as an object of
    -- the member's kind, in strict order of reference within the member; no two identities in the
    -- whole payload, of objects and of their aliases, are equal; and what references are then
    -- resolved against are exactly these identities.
    pub validate_members-Distinct :
        (ds : List Descriptor) (s : Seen)
        → validate_members reader members ds nothing_seen ≡ ok s
        → (ess : List (List (ObjectEnvelope Value))) × ReadMembers ds ess
          × Distinct (member_keys ess)
          × ((k : String) → mem_str k s.present ≡ mem_str k (member_keys ess))
    validate_members-Distinct ds s h =
        let (ess, reads, adds) = validate_members-Adds ds nothing_seen s h in
        (ess, reads, adds.refs.distinct, λ k. ground (arith, adds.present k))
