-- ===== src/Transfers/Consent/Asked.antt =====
-- When the user is asked before a file is sent, and when it is sent.
use cordia.Base.{
  Bool, Option, Str, false, find, if◌then◌else◌, nat_eq, none, some, str_eq, ◌==◌, ◌∷◌, ◌≡◌,
}
use cordia.Transfers.Consent.{SharedFile, Uploads}

abbrev pub is_shared : Option SharedFile → Bool
is_shared none = false
is_shared (some file) = file.can_share_now

abbrev pub found_file : Str → Uploads → Option SharedFile
found_file id s = find (λ file. file.attachment_id == id) s.shared

-- The answer, whether the user was asked, and what a refusal leaves as it was.
abbrev pub Answers : Str → Str → Bool → Bool → Uploads → Uploads → Type 0
Answers from request asked accepted s t =
    (t.responses
      ≡ record { to_user_id = from; request_id = request; accepted = accepted } ∷ s.responses)
    × (t.dialogs ≡ (if asked then from ∷ s.dialogs else s.dialogs))
    × (accepted ≡ false → (t.transfers ≡ s.transfers) × (t.admission ≡ s.admission))
