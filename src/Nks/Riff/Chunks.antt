-- ===== src/Nks/Riff/Chunks.antt =====
-- Files laid out as a list of chunks.
use openmk.Prelude.{
  ℕ, zero, suc, ◌+◌, ◌-◌, ◌%◌, ◌<◌, ◌≡◌, refl, ap, ◌∙◌, inl, inr, Bool, Option, none, some, List,
  [], ◌∷◌, ◌++◌, length, length-append, All, ◌==◌, if◌then◌else◌, Bool-cases, Outcome, ok, err,
  panic, ◌>>=◌, map_ok, le_bytes, from_le_bytes-le_bytes, arith,
}
use openmk.Nks.Plid.{RawPlid, classify}
use openmk.Nks.Riff.{
  NksError, File, id_nisi, id_plid, id_nica, id_pchk, magic_riff, magic_niks, same_bytes, seek,
  Found, decoded, read_payload, read_chunks, read_form, found_nothing, read_nisi, read_plid,
  read_nica, read_chunk, after_id, walk, finish, read_metadata,
}
use openmk.Nks.Riff.Layout.{
  Chunk, size, IsChunk, padding, chunk_bytes, chunks_bytes, Remains, length-Remains,
  read_exact-Remains, read_u32_le-Remains, read_payload-Remains, ended, regroup, length-chunk_bytes,
  past_padding, past_padding-Remains,
}

module _ {Summary : Type 0} (decode_summary : List ℕ → Option Summary)
    (decode_plid : List ℕ → Option RawPlid) where
  -- What a chunk whose data starts at `start` tells.
  abbrev pub keep_chunk : ℕ → Chunk → Found Summary → Outcome NksError (Found Summary)
  keep_chunk start c found =
      if same_bytes c.id id_nisi
      then map_ok (λ s. record found { summary = some s }) (decoded (decode_summary c.payload))
      else if same_bytes c.id id_plid
      then map_ok (λ raw. record found { plugin = some (classify raw) })
          (decoded (decode_plid c.payload))
      else if same_bytes c.id id_nica
      then ok (record found { controller = some c.payload })
      else if same_bytes c.id id_pchk
      then ok (record found { pchk = some (start + 4, length c.payload) })
      else ok found

  -- What the chunks from offset `off` on tell, a later chunk of a kind in place of an earlier one.
  abbrev pub collect : ℕ → List Chunk → Found Summary → Outcome NksError (Found Summary)
  collect off [] found = ok found
  collect off (c ∷ cs) found =
      keep_chunk (off + 8) c found >>= λ found₁. collect (off + length (chunk_bytes c)) cs found₁

  kept :
      {A : Type 0} (o : Option A) (k : A → Found Summary) (g : File)
      → ◌>>=◌ {B = Found Summary × File} (decoded o) (λ a. ok (k a, g))
        ≡ map_ok (λ u. (u, g)) (map_ok k (decoded o))
  kept none k g = refl
  kept (some a) k g = refl

  read_chunk-Remains :
      (f : File) (c : Chunk) (found : Found Summary) (rest : List ℕ)
      → length c.version ≡ 4
      → Remains f (c.version ++ (c.payload ++ rest))
      → read_chunk decode_summary decode_plid c.id (size c) found f
        ≡ map_ok (λ u. (u, seek (size c) f)) (keep_chunk f.pos c found)
  unfolding read_chunk read_nisi read_plid read_nica
  read_chunk-Remains f c found rest e h = elim (Bool-cases (same_bytes c.id id_nisi)) [
    | inl nisi ↦ rw (nisi, payload) (kept (decode_summary c.payload) _ _)
    | inr not_nisi ↦ elim (Bool-cases (same_bytes c.id id_plid)) [
      | inl plid ↦ rw (not_nisi, plid, payload) (kept (decode_plid c.payload) _ _)
      | inr not_plid ↦ elim (Bool-cases (same_bytes c.id id_nica)) [
        | inl nica ↦ rw (not_nisi, not_plid, nica, payload) refl
        | inr not_nica ↦ elim (Bool-cases (same_bytes c.id id_pchk)) [
          | inl pchk ↦ rw (not_nisi, not_plid, not_nica, pchk, counted) refl
          | inr other ↦ rw (not_nisi, not_plid, not_nica, other) refl
        ]
      ]
    ]
  ]
    where
      payload : read_payload (size c) f ≡ ok (c.payload, seek (size c) f)
      payload = (read_payload-Remains f c rest e h).0

      counted : 4 + length c.payload - 4 ≡ length c.payload
      counted = omega arith

  resume :
      (o : Outcome NksError (Found Summary)) (g : File)
      (next : Found Summary → File → Outcome NksError (Found Summary)) (odd : Bool)
      (then_ : Found Summary → Outcome NksError (Found Summary))
      → ((found : Found Summary) → next found (if odd then seek 1 g else g) ≡ then_ found)
      → ◌>>=◌ {A = Found Summary × File}
          (map_ok (λ u. (u, g)) o)
          (λ r. next r.0 (if odd then seek 1 r.1 else r.1))
        ≡ (o >>= then_)
  resume (ok found) g next odd then_ h = h found
  resume (err e) g next odd then_ h = refl
  resume panic g next odd then_ h = refl

  walk-collect :
      (cs : List Chunk) (fuel : ℕ) (found : Found Summary) (f : File)
      → All IsChunk cs
      → Remains f (chunks_bytes cs)
      → 0 < fuel
      → length f.bytes < f.pos + fuel
      → walk decode_summary decode_plid fuel found f ≡ collect f.pos cs found
  unfolding walk after_id
  walk-collect cs zero found f v h p q = absurd (omega arith)
  walk-collect [] (suc fuel) found f v h p q = rw (ended f h) refl
  walk-collect (c ∷ cs) (suc fuel) found f v h p q =
      let unread : Remains f (
          c.id
          ++ (le_bytes 4 (size c)
              ++ (c.version ++ (c.payload ++ (padding (size c) ++ chunks_bytes cs))))) =
        (h.0 ∙ regroup c (chunks_bytes cs), h.1) in
      let (id, f₁) = read_exact-Remains 4 f c.id _ v.0.0 unread in
      let (len, f₂) = read_u32_le-Remains (seek 4 f) (le_bytes 4 (size c)) _ refl f₁ in
      let value = from_le_bytes-le_bytes 4 (size c) (omega (arith, v.0.2)) in
      let body_at : File = seek 4 (seek 4 f) in
      let body = read_chunk-Remains body_at c found _ v.0.1 f₂ in
      let after = (read_payload-Remains body_at c _ v.0.1 f₂).1 in
      let (left, same, moved) =
        past_padding-Remains (size c) (seek (size c) body_at) (chunks_bytes cs) after in
      let start : f.pos + 4 + 4 ≡ f.pos + 8 = omega arith in
      let total = length-chunk_bytes c v.0 in
      rw (id, len, value, body)
        (resume (keep_chunk (f.pos + 4 + 4) c found) (seek (size c) body_at)
            (walk decode_summary decode_plid fuel) (size c % 2 == 1)
            (λ u. collect (f.pos + length (chunk_bytes c)) cs u)
            (λ u.
              walk-collect cs fuel u (past_padding (size c) (seek (size c) body_at)) v.1 left
                (omega (
                  arith,
                  length-Remains f _ h,
                  length-append (chunk_bytes c) (chunks_bytes cs),
                  total,
                ))
                (omega (arith, same, moved, total))
              ∙ ap (λ n. collect n cs u) (omega (arith, moved, total)))
          ∙ ap
              (λ st.
                ◌>>=◌ {B = Found Summary} (keep_chunk st c found)
                  (λ u. collect (f.pos + length (chunk_bytes c)) cs u))
              start)

  -- On a file of the form type `NIKS` that is laid out as chunks, each padded to an even length, the
  -- reader collects what the chunks tell in order and asks for a summary and a plug-in; the total length
  -- in the header does not matter, and neither does a chunk of another kind.
  pub read_metadata-chunks_bytes :
      (total_len : List ℕ) (cs : List Chunk)
      → length total_len ≡ 4
      → All IsChunk cs
      → read_metadata decode_summary decode_plid
          (magic_riff ++ (total_len ++ (magic_niks ++ chunks_bytes cs)))
        ≡ (collect 12 cs (found_nothing decode_summary decode_plid)
            >>= finish decode_summary decode_plid)
  unfolding read_metadata read_form read_chunks
  read_metadata-chunks_bytes total_len cs e v =
      let start : File = record {
        bytes = magic_riff ++ (total_len ++ (magic_niks ++ chunks_bytes cs));
        pos = 0;
      } in
      let (riff, f₁) = read_exact-Remains 4 start magic_riff _ refl (refl, omega arith) in
      let (total, f₂) = read_u32_le-Remains (seek 4 start) total_len _ e f₁ in
      let (niks, f₃) = read_exact-Remains 4 (seek 4 (seek 4 start)) magic_niks _ refl f₂ in
      let f : File = seek 4 (seek 4 (seek 4 start)) in
      let all =
        walk-collect cs (length f.bytes) (found_nothing decode_summary decode_plid) f v f₃
          (omega arith) (omega arith) in
      rw (riff, total, niks) (ap (λ o. o >>= finish decode_summary decode_plid) all)
