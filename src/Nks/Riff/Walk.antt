-- ===== src/Nks/Riff/Walk.antt =====
-- The walk ends on every file.
use openmk.Prelude.{
  ℕ, zero, suc, ◌+◌, ◌-◌, ◌%◌, ◌≤◌, ◌<◌, ◌≡◌, ◌||◌, inl, inr, Option, none, some, List, length, leb,
  ◌==◌, Bool-cases, false, Outcome, ok, err, panic, Returns, Returns-bind, Returns-weaken, refl,
  ◌>>=◌, arith,
}
use openmk.Nks.Plid.{RawPlid, NksPluginId}
use openmk.Nks.Riff.{
  NksError, File, id_nisi, id_plid, id_nica, id_pchk, magic_riff, magic_niks, same_bytes,
  read_exact, read_u32_le, seek, Found, decoded, read_payload, read_chunks, read_form, read_nisi,
  read_plid, read_nica, read_chunk, after_id, walk, finish, read_metadata,
}

-- A step on a file has not gone back, and it is the same file.
record IsLater (f g : File) : Type 0 where
  same_length : length g.bytes ≡ length f.bytes
  forward : f.pos ≤ g.pos

abbrev Ends : {A : Type 0} → File → Outcome NksError (A × File) → Type 0
Ends f o = Returns (λ r. IsLater f r.1) o

-- `n` bytes have been read of a file that has them.
abbrev Advances : ℕ → File → File → Type 0
Advances n f g =
    (length g.bytes ≡ length f.bytes) × (g.pos ≡ f.pos + n) × (f.pos + n ≤ length f.bytes)

read_exact-Advances :
    (n : ℕ) (f : File) → Returns (λ r. Advances (suc n) f r.1) (read_exact (suc n) f)
unfolding read_exact
read_exact-Advances n f = elim (Bool-cases (leb (f.pos + suc n) (length f.bytes))) [
  | inl fits ↦ rw fits (omega arith, omega arith, ground arith)
  | inr short ↦ let filled : (suc n == 0) ≡ false = ground arith in rw (short, filled) tt
]

-- The same of a read of any number of bytes, less that the file has them.
abbrev Moves : ℕ → File → File → Type 0
Moves n f g = (length g.bytes ≡ length f.bytes) × (g.pos ≡ f.pos + n)

read_exact-Moves : (n : ℕ) (f : File) → Returns (λ r. Moves n f r.1) (read_exact n f)
unfolding read_exact
read_exact-Moves n f = elim (Bool-cases (leb (f.pos + n) (length f.bytes) || (n == 0))) [
  | inl reads ↦ rw reads (refl, refl)
  | inr short ↦ rw short tt
]

read_u32_le-Advances : (f : File) → Returns (λ r. Advances 4 f r.1) (read_u32_le f)
unfolding read_u32_le
read_u32_le-Advances f =
    Returns-bind (λ r. Advances 4 f r.1) _ (read_exact 4 f) _ (λ r h. h) (read_exact-Advances 3 f)

read_payload-Ends : (len : ℕ) (f : File) → Ends f (read_payload len f)
unfolding read_payload
read_payload-Ends len f =
    Returns-bind (λ r. Advances 4 f r.1) _ (read_u32_le f) _
      (λ r h.
        Returns-weaken (λ q. Moves (len - 4) r.1 q.1) (λ q. IsLater f q.1)
          (read_exact (len - 4) r.1)
          (λ q g. record {
            same_length = omega (arith, h.0, g.0);
            forward = omega (arith, h.1, g.1);
          })
          (read_exact-Moves (len - 4) r.1))
      (read_u32_le-Advances f)

decoded-Returns :
    {A B : Type 0} (Q : B × File → Type 0) (o : Option A) (g : File) (k : A → B)
    → ((b : B) → Q (b, g))
    → Returns Q (decoded o >>= λ a. ok (k a, g))
decoded-Returns Q none g k h = tt
decoded-Returns Q (some a) g k h = h (k a)

module _ {Summary : Type 0} (decode_summary : List ℕ → Option Summary)
    (decode_plid : List ℕ → Option RawPlid) where
  read_nisi-Ends :
      (len : ℕ) (found : Found Summary) (f : File)
      → Ends f (read_nisi decode_summary decode_plid len found f)
  unfolding read_nisi
  read_nisi-Ends len found f =
      Returns-bind (λ r. IsLater f r.1) (λ q. IsLater f q.1) (read_payload len f) _
        (λ r h. decoded-Returns (λ q. IsLater f q.1) (decode_summary r.0) r.1 _ (λ _. h))
        (read_payload-Ends len f)

  read_plid-Ends :
      (len : ℕ) (found : Found Summary) (f : File)
      → Ends f (read_plid decode_summary decode_plid len found f)
  unfolding read_plid
  read_plid-Ends len found f =
      Returns-bind (λ r. IsLater f r.1) (λ q. IsLater f q.1) (read_payload len f) _
        (λ r h. decoded-Returns (λ q. IsLater f q.1) (decode_plid r.0) r.1 _ (λ _. h))
        (read_payload-Ends len f)

  read_nica-Ends :
      (len : ℕ) (found : Found Summary) (f : File)
      → Ends f (read_nica decode_summary decode_plid len found f)
  unfolding read_nica
  read_nica-Ends len found f =
      Returns-bind (λ r. IsLater f r.1) (λ q. IsLater f q.1) (read_payload len f) _ (λ r h. h)
        (read_payload-Ends len f)

  read_chunk-Ends :
      (id : List ℕ) (len : ℕ) (found : Found Summary) (f : File)
      → Ends f (read_chunk decode_summary decode_plid id len found f)
  unfolding read_chunk
  read_chunk-Ends id len found f = elim (Bool-cases (same_bytes id id_nisi)) [
    | inl nisi ↦ rw nisi (read_nisi-Ends len found f)
    | inr not_nisi ↦ elim (Bool-cases (same_bytes id id_plid)) [
      | inl plid ↦ rw (not_nisi, plid) (read_plid-Ends len found f)
      | inr not_plid ↦ elim (Bool-cases (same_bytes id id_nica)) [
        | inl nica ↦ rw (not_nisi, not_plid, nica) (read_nica-Ends len found f)
        | inr not_nica ↦ elim (Bool-cases (same_bytes id id_pchk)) [
          | inl pchk ↦
              rw (not_nisi, not_plid, not_nica, pchk)
                (record { same_length = refl; forward = omega arith })
          | inr other ↦
              rw (not_nisi, not_plid, not_nica, other)
                (record { same_length = refl; forward = omega arith })
        ]
      ]
    ]
  ]

  -- After an id is read, whatever the rest of the loop does on a file further on.
  after_id-Returns :
      (next : Found Summary → File → Outcome NksError (Found Summary)) (found : Found Summary)
      (f : File) (o : Outcome NksError (List ℕ × File))
      → Returns (λ r. Advances 4 f r.1) o
      → ((found₁ : Found Summary) (g : File)
          → length g.bytes ≡ length f.bytes
          → f.pos + 8 ≤ g.pos
          → f.pos + 4 ≤ length f.bytes
          → Returns (λ _. Unit) (next found₁ g))
      → Returns (λ _. Unit) (after_id decode_summary decode_plid next found o)
  unfolding after_id
  after_id-Returns next found f (err e) h later = tt
  after_id-Returns next found f panic h later = h
  after_id-Returns next found f (ok (id, g)) h later =
      Returns-bind (λ r. Advances 4 g r.1) (λ _. Unit) (read_u32_le g) _
        (λ r u.
          Returns-bind (λ q. IsLater r.1 q.1) (λ _. Unit)
            (read_chunk decode_summary decode_plid id r.0 found r.1) _
            (λ q w. elim (Bool-cases (r.0 % 2 == 1)) [
              | inl odd ↦ rw odd (
                  later q.0 (seek 1 q.1) (omega (arith, h, u, w.same_length))
                    (omega (arith, h, u, w.forward)) h.2)
              | inr even ↦ rw even (
                  later q.0 q.1 (omega (arith, h, u, w.same_length))
                    (omega (arith, h, u, w.forward)) h.2)
            ])
            (read_chunk-Ends id r.0 found r.1))
        (read_u32_le-Advances g)

  walk-Returns :
      (fuel : ℕ) (found : Found Summary) (f : File)
      → 0 < fuel
      → length f.bytes < f.pos + fuel
      → Returns (λ _. Unit) (walk decode_summary decode_plid fuel found f)
  unfolding walk
  walk-Returns zero found f p q = absurd (omega arith)
  walk-Returns (suc fuel) found f p q =
      after_id-Returns (walk decode_summary decode_plid fuel) found f (read_exact 4 f)
        (read_exact-Advances 3 f)
        (λ found₁ g same further fits. walk-Returns fuel found₁ g (omega arith) (omega arith))

  finish-Returns :
      (found : Found Summary) → Returns (λ _. Unit) (finish decode_summary decode_plid found)
  unfolding finish
  finish-Returns found = by_fields found.summary found.plugin
    where
      by_fields :
          (s : Option Summary) (p : Option NksPluginId)
          → Returns
              (λ _. Unit)
              (finish decode_summary decode_plid (record found { summary = s; plugin = p }))
      by_fields none p = tt
      by_fields (some s) none = tt
      by_fields (some s) (some p) = tt

  read_chunks-Returns :
      (niks : List ℕ) (f : File)
      → 0 < f.pos
      → f.pos ≤ length f.bytes
      → Returns (λ _. Unit) (read_chunks decode_summary decode_plid niks f)
  unfolding read_chunks
  read_chunks-Returns niks f p q = elim (Bool-cases (same_bytes niks magic_niks)) [
    | inl form ↦ rw form (
        Returns-bind (λ _. Unit) (λ _. Unit) (walk decode_summary decode_plid (length f.bytes) _ f)
          _ (λ found _. finish-Returns found)
          (walk-Returns (length f.bytes) _ f (omega arith) (omega arith)))
    | inr other ↦ rw other tt
  ]

  read_form-Returns : (f : File) → Returns (λ _. Unit) (read_form decode_summary decode_plid f)
  unfolding read_form
  read_form-Returns f =
      Returns-bind (λ r. Advances 4 f r.1) (λ _. Unit) (read_u32_le f) _
        (λ r u.
          Returns-bind (λ q. Advances 4 r.1 q.1) (λ _. Unit) (read_exact 4 r.1) _
            (λ q w. read_chunks-Returns q.0 q.1 (omega (arith, w.1)) (omega (arith, w.0, w.1, w.2)))
            (read_exact-Advances 3 r.1))
        (read_u32_le-Advances f)

  -- On every list of bytes the reader ends with metadata or an error: the loop does not run out of the
  -- fuel, which is the length of the file.
  pub read_metadata-Returns :
      (bytes : List ℕ) → Returns (λ _. Unit) (read_metadata decode_summary decode_plid bytes)
  unfolding read_metadata
  read_metadata-Returns bytes =
      Returns-bind (λ _. Unit) (λ _. Unit) (read_exact 4 start) _
        (λ r _. elim (Bool-cases (same_bytes r.0 magic_riff)) [
          | inl riff ↦ rw riff (read_form-Returns r.1)
          | inr other ↦ rw other tt
        ])
        (Returns-weaken (λ r. Advances 4 start r.1) (λ _. Unit) (read_exact 4 start) (λ _ _. tt)
          (read_exact-Advances 3 start))
    where
      start : File
      start = record { bytes = bytes; pos = 0 }
