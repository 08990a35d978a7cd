-- ===== src/Nks/Riff/Layout.antt =====
-- The layout of a chunk, and reads of a file whose unread part is known.
use openmk.Prelude.{
  ℕ, ◌+◌, ◌-◌, ◌%◌, ◌^◌, ◌≤◌, ◌<◌, ◌≡◌, refl, ap, sym, subst, ◌∙◌, inl, inr, false, List, [], ◌∷◌,
  ◌++◌, append_assoc, length, length-append, length-drop, drop, drop-drop, take-length_append,
  drop-length_append, leb, le→leb, ◌==◌, if◌then◌else◌, Bool-cases, ok, err, le_bytes,
  from_le_bytes, arith,
}
use openmk.Nks.Riff.{File, read_exact, read_u32_le, seek, read_payload, unexpected_eof}

pub record Chunk : Type 0 where
  pub id : List ℕ
  pub version : List ℕ
  pub payload : List ℕ

-- The length field of a chunk counts the version and the payload.
abbrev pub size : Chunk → ℕ
size c = 4 + length c.payload

abbrev pub IsChunk : Chunk → Type 0
IsChunk c = (length c.id ≡ 4) × (length c.version ≡ 4) × (size c < 2 ^ 32)

abbrev pub padding : ℕ → List ℕ
padding n = if n % 2 == 1 then 0 ∷ [] else []

abbrev pub chunk_bytes : Chunk → List ℕ
chunk_bytes c = c.id ++ (le_bytes 4 (size c) ++ (c.version ++ (c.payload ++ padding (size c))))

abbrev pub chunks_bytes : List Chunk → List ℕ
chunks_bytes [] = []
chunks_bytes (c ∷ cs) = chunk_bytes c ++ chunks_bytes cs

-- The unread part of a file.
abbrev pub Remains : File → List ℕ → Type 0
Remains f rest = (drop f.pos f.bytes ≡ rest) × (f.pos ≤ length f.bytes)

pub length-Remains :
    (f : File) (rest : List ℕ) → Remains f rest → length f.bytes ≡ f.pos + length rest
length-Remains f rest h = omega (arith, h.1, length-drop f.pos f.bytes, ap {A = List ℕ} length h.0)

pub read_exact-Remains :
    (n : ℕ) (f : File) (x rest : List ℕ)
    → length x ≡ n
    → Remains f (x ++ rest)
    → (read_exact n f ≡ ok (x, seek n f)) × Remains (seek n f) rest
unfolding read_exact
read_exact-Remains n f x rest e h = (
  rw (le→leb (f.pos + n) (length f.bytes) fits, h.0, sym e, take-length_append x rest) refl,
  (sym (drop-drop n f.pos f.bytes) ∙ rw (h.0, sym e) (drop-length_append x rest), fits),
)
  where
    fits : f.pos + n ≤ length f.bytes
    fits = omega (arith, length-Remains f (x ++ rest) h, length-append x rest)

pub read_u32_le-Remains :
    (f : File) (x rest : List ℕ)
    → length x ≡ 4
    → Remains f (x ++ rest)
    → (read_u32_le f ≡ ok (from_le_bytes x, seek 4 f)) × Remains (seek 4 f) rest
unfolding read_u32_le
read_u32_le-Remains f x rest e h =
    let (found, left) = read_exact-Remains 4 f x rest e h in (rw found refl, left)

pub read_payload-Remains :
    (f : File) (c : Chunk) (rest : List ℕ)
    → length c.version ≡ 4
    → Remains f (c.version ++ (c.payload ++ rest))
    → (read_payload (size c) f ≡ ok (c.payload, seek (size c) f)) × Remains (seek (size c) f) rest
unfolding read_payload
read_payload-Remains f c rest e h =
    let (version, after_version) = read_u32_le-Remains f c.version (c.payload ++ rest) e h in
    let n : 4 + length c.payload - 4 ≡ length c.payload = omega arith in
    let (payload, after_payload) =
      read_exact-Remains (length c.payload) (seek 4 f) c.payload rest refl after_version in
    let place : f.pos + 4 + length c.payload ≡ f.pos + (4 + length c.payload) = omega arith in
    (
      rw (version, n, payload) (ap (λ p. ok (c.payload, record f { pos = p })) place),
      subst (λ p. Remains (record f { pos = p }) rest) place after_payload,
    )

pub ended : (f : File) → Remains f [] → read_exact 4 f ≡ err unexpected_eof
unfolding read_exact
ended f h = rw too_long refl
  where
    too_long : leb (f.pos + 4) (length f.bytes) ≡ false
    too_long = ground (arith, length-Remains f [] h)

pub regroup :
    (c : Chunk) (rest : List ℕ)
    → chunk_bytes c ++ rest
      ≡ c.id ++ (le_bytes 4 (size c) ++ (c.version ++ (c.payload ++ (padding (size c) ++ rest))))
regroup c rest =
    append_assoc c.id (le_bytes 4 (size c) ++ (c.version ++ (c.payload ++ padding (size c)))) rest
    ∙ ap (λ bs. c.id ++ (le_bytes 4 (size c) ++ bs))
        (append_assoc c.version (c.payload ++ padding (size c)) rest
          ∙ ap (λ bs. c.version ++ bs) (append_assoc c.payload (padding (size c)) rest))

pub length-chunk_bytes :
    (c : Chunk) → IsChunk c → length (chunk_bytes c) ≡ 8 + size c + length (padding (size c))
length-chunk_bytes c h = omega (
  arith,
  h,
  length-append c.id (le_bytes 4 (size c) ++ (c.version ++ (c.payload ++ padding (size c)))),
  length-append c.version (c.payload ++ padding (size c)),
  length-append c.payload (padding (size c)),
)

-- The file after the padding of a chunk of `n` bytes.
abbrev pub past_padding : ℕ → File → File
past_padding n g = if n % 2 == 1 then seek 1 g else g

pub past_padding-Remains :
    (n : ℕ) (g : File) (rest : List ℕ)
    → Remains g (padding n ++ rest)
    → Remains (past_padding n g) rest
      × (length (past_padding n g).bytes ≡ length g.bytes)
      × ((past_padding n g).pos ≡ g.pos + length (padding n))
past_padding-Remains n g rest h = elim (Bool-cases (n % 2 == 1)) [
  | inl odd ↦ rw odd (
    (read_exact-Remains 1 g (0 ∷ []) rest refl
        (subst (λ b. Remains g ((if b then 0 ∷ [] else []) ++ rest)) odd h)).1,
    refl,
    omega arith,
  )
  | inr even ↦
      rw even
        (subst (λ b. Remains g ((if b then 0 ∷ [] else []) ++ rest)) even h, refl, omega arith)
]
