-- ===== src/Core/Transport/Reader.antt =====
-- What the HID reader sends on, and how many requests it keeps in the queue.
use openmk.Prelude.{
  ℕ, ◌≡◌, ◌∙◌, refl, sym, true, false, List, [], ◌∷◌, ◌++◌, append_assoc, append-nil, if◌then◌else◌,
}
use openmk.Core.Transport.{
  HidReader_new, Completion, completed, failed_transfer, resubmit, is_empty_report, hid_reader,
}

-- The reports that are read until the receiver is gone: the bytes of each completion that has any.
abbrev pub reports : {TransferError : Type 0} → List (Completion TransferError) → List (List ℕ)
reports [] = []
reports (failed_transfer e ∷ cs) = reports cs
reports (completed bytes there ∷ cs) =
    if is_empty_report bytes then reports cs else if there then bytes ∷ reports cs else []

hid_reader_from :
    {TransferError : Type 0} (cs : List (Completion TransferError)) (sent : List (List ℕ))
    → let (s, over) = hid_reader cs (record { in_flight = 4; sent = sent }) in
      (s.sent ≡ sent ++ reports cs) × (s.in_flight ≡ (if over then 3 else 4))
unfolding hid_reader resubmit
hid_reader_from [] sent = (sym (append-nil sent), refl)
hid_reader_from (failed_transfer e ∷ cs) sent = hid_reader_from cs sent
hid_reader_from (completed [] there ∷ cs) sent = hid_reader_from cs sent
hid_reader_from (completed (b ∷ bs) true ∷ cs) sent =
    let later = hid_reader_from cs (sent ++ (b ∷ bs) ∷ []) in
    (later.0 ∙ append_assoc sent ((b ∷ bs) ∷ []) (reports cs), later.1)
hid_reader_from (completed (b ∷ bs) false ∷ cs) sent = (sym (append-nil sent), refl)

-- The HID reader sends on, in order and once each, the bytes of the completions that have any, past every
-- failed transfer, until the receiver is gone; and while it runs its queue holds four requests.
pub hid_reader_lem :
    {TransferError : Type 0} (cs : List (Completion TransferError))
    → let (s, over) = hid_reader cs HidReader_new in
      (s.sent ≡ reports cs) × (s.in_flight ≡ (if over then 3 else 4))
hid_reader_lem cs = hid_reader_from cs []
