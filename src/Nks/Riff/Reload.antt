-- ===== src/Nks/Riff/Reload.antt =====
-- The plug-in state that a file's metadata points to.
use openmk.Prelude.{
  ℕ, ◌+◌, ◌≡◌, refl, ap, sym, subst, ◌∙◌, inl, inr, Bool, true, false, Option, none, some, List, [],
  ◌∷◌, ◌++◌, append_assoc, length, length-append, All, if_true, if_false, Bool-cases, Outcome, ok,
  err, panic, ◌>>=◌, map_ok, le_bytes, arith,
}
use openmk.Nks.Plid.{RawPlid, NksPluginId, classify}
use openmk.Nks.Riff.{
  NksError, NksFile, File, Found, found_nothing, id_nisi, id_plid, id_nica, id_pchk, magic_riff,
  magic_niks, same_bytes, seek, read_exact, decoded, finish, read_metadata,
}
use openmk.Nks.Riff.Layout.{
  Chunk, size, IsChunk, padding, chunk_bytes, chunks_bytes, Remains, read_exact-Remains, regroup,
}
use openmk.Nks.Riff.Chunks.{keep_chunk, collect, read_metadata-chunks_bytes}
use openmk.Nks.Riff.State.{read_state}

chunks_bytes-append :
    (cs ds : List Chunk) → chunks_bytes (cs ++ ds) ≡ chunks_bytes cs ++ chunks_bytes ds
chunks_bytes-append [] ds = refl
chunks_bytes-append (c ∷ cs) ds =
    ap (λ bs. chunk_bytes c ++ bs) (chunks_bytes-append cs ds)
    ∙ sym (append_assoc (chunk_bytes c) (chunks_bytes cs) (chunks_bytes ds))

-- The data of a chunk of a file.
read_chunk_data :
    (f : File) (before after : List Chunk) (c : Chunk)
    → IsChunk c
    → Remains f (chunks_bytes (before ++ (c ∷ after)))
    → read_exact (length c.payload) (record f { pos = f.pos + length (chunks_bytes before) + 12 })
      ≡ ok (
        c.payload,
        record f { pos = f.pos + length (chunks_bytes before) + 12 + length c.payload },
      )
read_chunk_data f before after c v h =
    let start : Remains f (chunks_bytes before ++ (chunk_bytes c ++ chunks_bytes after)) =
      (h.0 ∙ chunks_bytes-append before (c ∷ after), h.1) in
    let (b, f₁) =
      read_exact-Remains (length (chunks_bytes before)) f (chunks_bytes before) _ refl start in
    let at_c : Remains (seek (length (chunks_bytes before)) f) (
        c.id
        ++ (le_bytes 4 (size c)
            ++ (c.version ++ (c.payload ++ (padding (size c) ++ chunks_bytes after))))) =
      (f₁.0 ∙ regroup c (chunks_bytes after), f₁.1) in
    let g = seek (length (chunks_bytes before)) f in
    let (i, f₂) = read_exact-Remains 4 g c.id _ v.0 at_c in
    let (l, f₃) = read_exact-Remains 4 (seek 4 g) (le_bytes 4 (size c)) _ refl f₂ in
    let (w, f₄) = read_exact-Remains 4 (seek 4 (seek 4 g)) c.version _ v.1 f₃ in
    let (p, f₅) =
      read_exact-Remains (length c.payload) (seek 4 (seek 4 (seek 4 g))) c.payload _ refl f₄ in
    let place : f.pos + length (chunks_bytes before) + 4 + 4 + 4
        ≡ f.pos + length (chunks_bytes before) + 12 =
      omega arith in
    subst
      (λ n.
        read_exact (length c.payload) (record f { pos = n })
        ≡ ok (c.payload, record f { pos = n + length c.payload }))
      place p

is_ok : {A : Type 0} → Outcome NksError A → Bool
is_ok (ok a) = true
is_ok _ = false

err-ne-ok : {A : Type 0} (e : NksError) (a : A) → ◌≡◌ {A = Outcome NksError A} (err e) (ok a) → ⊥
unfolding is_ok
err-ne-ok e a h = let h' : false ≡ true = ap is_ok h in ground arith

from_ok : {A : Type 0} → A → Outcome NksError A → A
from_ok d (ok a) = a
from_ok d _ = d

ok-inj : {A : Type 0} (a b : A) → ◌≡◌ {A = Outcome NksError A} (ok a) (ok b) → a ≡ b
unfolding from_ok
ok-inj a b h = ap (from_ok a) h

panic-ne-ok : {A : Type 0} (a : A) → ◌≡◌ {A = Outcome NksError A} panic (ok a) → ⊥
unfolding is_ok
panic-ne-ok a h = let h' : false ≡ true = ap is_ok h in ground arith

module _ {Summary : Type 0} where
  pchk_map :
      {A : Type 0} (o : Option A) (k : A → Found Summary) (found u : Found Summary)
      → ((a : A) → (k a).pchk ≡ found.pchk)
      → map_ok k (decoded o) ≡ ok u
      → u.pchk ≡ found.pchk
  pchk_map none k found u h e = absurd (err-ne-ok _ u e)
  pchk_map (some a) k found u h e = sym (ap (λ w. w.pchk) (ok-inj (k a) u e)) ∙ h a

-- A first step that succeeds, and the rest.
bind_ok :
    {A B : Type 0} (o : Outcome NksError A) (k : A → Outcome NksError B) (b : B)
    → (o >>= k) ≡ ok b
    → (a : A) × (o ≡ ok a) × (k a ≡ ok b)
bind_ok (ok a) k b e = (a, refl, e)
bind_ok (err x) k b e = absurd (err-ne-ok x b e)
bind_ok panic k b e = absurd (panic-ne-ok b e)

module _ {Summary : Type 0} (decode_summary : List ℕ → Option Summary)
    (decode_plid : List ℕ → Option RawPlid) where
  -- A chunk of another kind.
  abbrev pub IsOther : Chunk → Type 0
  IsOther c = same_bytes c.id id_pchk ≡ false

  keep_other :
      (start : ℕ) (c : Chunk) (found u : Found Summary)
      → IsOther c
      → keep_chunk decode_summary decode_plid start c found ≡ ok u
      → u.pchk ≡ found.pchk
  keep_other start c found u h e = elim (Bool-cases (same_bytes c.id id_nisi)) [
    | inl nisi ↦
        pchk_map (decode_summary c.payload) (λ s. record found { summary = some s }) found u
          (λ s. refl) (sym (if_true _ _ _ nisi) ∙ e)
    | inr a ↦ elim (Bool-cases (same_bytes c.id id_plid)) [
      | inl plid ↦
          pchk_map (decode_plid c.payload) (λ raw. record found { plugin = some (classify raw) })
            found u (λ s. refl) (sym (if_false _ _ _ a ∙ if_true _ _ _ plid) ∙ e)
      | inr b ↦ elim (Bool-cases (same_bytes c.id id_nica)) [
        | inl nica ↦ sym (
            ap (λ w. w.pchk)
              (ok-inj _ u (sym (if_false _ _ _ a ∙ if_false _ _ _ b ∙ if_true _ _ _ nica) ∙ e)))
        | inr d ↦ sym (
            ap (λ w. w.pchk)
              (ok-inj _ u (
                sym (if_false _ _ _ a ∙ if_false _ _ _ b ∙ if_false _ _ _ d ∙ if_false _ _ _ h)
                ∙ e)))
      ]
    ]
  ]

  collect_others :
      (cs : List Chunk) (off : ℕ) (found u : Found Summary)
      → All IsOther cs
      → collect decode_summary decode_plid off cs found ≡ ok u
      → u.pchk ≡ found.pchk
  collect_others [] off found u h e = sym (ap (λ w. w.pchk) (ok-inj found u e))
  collect_others (c ∷ cs) off found u (h, hs) e =
      let (w, first, rest) =
        bind_ok (keep_chunk decode_summary decode_plid (off + 8) c found) _ u e in
      collect_others cs (off + length (chunk_bytes c)) w u hs rest
      ∙ keep_other (off + 8) c found w h first

  keep_pchk :
      (start : ℕ) (c : Chunk) (found : Found Summary)
      → c.id ≡ id_pchk
      → keep_chunk decode_summary decode_plid start c found
        ≡ ok (record found { pchk = some (start + 4, length c.payload) })
  keep_pchk start c found i =
      ap (λ id. keep_chunk decode_summary decode_plid start (record c { id = id }) found) i

  collect_pchk :
      (before after : List Chunk) (c : Chunk) (off : ℕ) (found u : Found Summary)
      → c.id ≡ id_pchk
      → All IsOther after
      → collect decode_summary decode_plid off (before ++ (c ∷ after)) found ≡ ok u
      → u.pchk ≡ some (off + length (chunks_bytes before) + 12, length c.payload)
  collect_pchk [] after c off found u i h e =
      let (w, first, rest) =
        bind_ok (keep_chunk decode_summary decode_plid (off + 8) c found) _ u e in
      collect_others after (off + length (chunk_bytes c)) w u h rest
      ∙ sym (ap (λ w. w.pchk) (ok-inj _ w (sym (keep_pchk (off + 8) c found i) ∙ first)))
      ∙ ap (λ n. some (n, length c.payload)) {x = off + 8 + 4} (omega arith)
  collect_pchk (b ∷ before) after c off found u i h e =
      let (w, first, rest) =
        bind_ok (keep_chunk decode_summary decode_plid (off + 8) b found) _ u e in
      collect_pchk before after c (off + length (chunk_bytes b)) w u i h rest
      ∙ ap (λ n. some (n, length c.payload))
          (omega (arith, length-append (chunk_bytes b) (chunks_bytes before)))

  finish_pchk :
      (s : Option Summary) (p : Option NksPluginId) (ctl : Option (List ℕ)) (place : ℕ × ℕ)
      (nks : NksFile Summary)
      → finish decode_summary decode_plid
          (record { summary = s; plugin = p; controller = ctl; pchk = some place })
        ≡ ok nks
      → (place.0 ≡ nks.pchk_offset) × (place.1 ≡ nks.pchk_len)
  unfolding finish
  finish_pchk none p ctl place nks e = absurd (err-ne-ok _ nks e)
  finish_pchk (some s) none ctl place nks e = absurd (err-ne-ok _ nks e)
  finish_pchk (some s) (some p) ctl place nks e =
      (ap (λ n. n.pchk_offset) (ok-inj _ nks e), ap (λ n. n.pchk_len) (ok-inj _ nks e))

  All-middle :
      (P : Chunk → Type 0) (before after : List Chunk) (c : Chunk)
      → All P (before ++ (c ∷ after))
      → P c
  All-middle P [] after c v = v.0
  All-middle P (b ∷ before) after c v = All-middle P before after c v.1

  -- On a file that is laid out as chunks and whose metadata can be read, loading the plug-in state by
  -- the offset and the length of the metadata gives the payload of the last `PCHK` chunk, wherever it
  -- stands.
  pub read_state-read_metadata :
      (total_len : List ℕ) (before after : List Chunk) (c : Chunk) (nks : NksFile Summary)
      → length total_len ≡ 4
      → All IsChunk (before ++ (c ∷ after))
      → c.id ≡ id_pchk
      → All IsOther after
      → read_metadata decode_summary decode_plid
          (magic_riff ++ (total_len ++ (magic_niks ++ chunks_bytes (before ++ (c ∷ after)))))
        ≡ ok nks
      → read_state nks
          (magic_riff ++ (total_len ++ (magic_niks ++ chunks_bytes (before ++ (c ∷ after)))))
        ≡ ok c.payload
  unfolding read_state
  read_state-read_metadata total_len before after c nks e v i h read =
      let cs = before ++ (c ∷ after) in
      let bytes = magic_riff ++ (total_len ++ (magic_niks ++ chunks_bytes cs)) in
      let all =
        sym (read_metadata-chunks_bytes decode_summary decode_plid total_len cs e v) ∙ read in
      let (u, collected, finished) =
        bind_ok
          (collect decode_summary decode_plid 12 cs (found_nothing decode_summary decode_plid)) _
          nks all in
      let place = collect_pchk before after c 12 _ u i h collected in
      let (offset, len) =
        finish_pchk u.summary u.plugin u.controller
          (12 + length (chunks_bytes before) + 12, length c.payload) nks
          (ap (λ p. finish decode_summary decode_plid (record u { pchk = p })) (sym place)
            ∙ finished) in
      let file : File = record { bytes = bytes; pos = 0 } in
      let f₁ = (read_exact-Remains 4 file magic_riff _ refl (refl, omega arith)).1 in
      let f₂ = (read_exact-Remains 4 (seek 4 file) total_len _ e f₁).1 in
      let start = (read_exact-Remains 4 (seek 4 (seek 4 file)) magic_niks _ refl f₂).1 in
      let found =
        read_chunk_data (seek 4 (seek 4 (seek 4 file))) before after c
          (All-middle IsChunk before after c v) start in
      ap
        (λ n.
          map_ok (λ r. r.0) (read_exact n (record { bytes = bytes; pos = 0 + nks.pchk_offset })))
        (sym len)
      ∙ ap
          (λ p.
            map_ok (λ r. r.0) (read_exact (length c.payload) (record { bytes = bytes; pos = p })))
          {x = 0 + nks.pchk_offset} {y = 12 + length (chunks_bytes before) + 12}
          (omega (arith, offset))
      ∙ ap (map_ok (λ r. r.0)) found
