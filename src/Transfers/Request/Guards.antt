-- ===== src/Transfers/Request/Guards.antt =====
-- When a request for an attachment goes on.
use cordia.Base.{
  Bool, Dict, Str, any, arith, false, if◌then◌else◌, keep, lookup, nat_eq, not, str_beq_iff, str_eq,
  true, truthy, truthy_option, ◌&&◌, ◌↔◌, ◌≡◌, ◌≢◌,
}
use cordia.Messages.{AttachmentMeta, ChatMessage}
use cordia.Transfers.Queue.{Downloads}
use cordia.Transfers.Request.{
  has_accessible_completed_download, is_gone, is_duplicate, turned_down, goes_on, check_request,
}

-- What a request that goes on has passed: the parties are named and differ, the content is neither
-- downloaded nor cached, and no download of it is under way in the rows that the handlers see.
pub record IsWanted (me : Str) (cached : Dict Str Str) (msg : ChatMessage) (att : AttachmentMeta)
    (s : Downloads) : Type 0 where
  pub known :
      (truthy me ≡ true) × (truthy att.attachment_id ≡ true) × (truthy msg.from_user_id ≡ true)
  pub from_other : msg.from_user_id ≢ me
  pub not_downloaded : has_accessible_completed_download att.attachment_id s.history ≡ false
  pub not_cached : (truthy att.sha256 && truthy_option (lookup att.sha256 cached)) ≡ false
  pub not_running : any (is_duplicate msg.id att.attachment_id) s.seen ≡ false

gates_open :
    (a b c d : Bool) (s s' : Downloads)
    → (if a
        then turned_down s
        else if b
        then turned_down s
        else if c
        then turned_down s
        else if d
        then turned_down s'
        else goes_on s')
      ≡ goes_on s'
    → (a ≡ false) × (b ≡ false) × (c ≡ false) × (d ≡ false)
gates_open a b c d s s' e = ground arith

-- A request goes on exactly when it is wanted, and then only rows of lost files have left the history.
check_request-goes_on_iff :
    (me : Str) (cached : Dict Str Str) (msg : ChatMessage) (att : AttachmentMeta) (s : Downloads)
    → (check_request me cached msg att s
        ≡ goes_on (record s { history = keep (λ h. not (is_gone att.attachment_id h)) s.history }))
      ↔ IsWanted me cached msg att s
unfolding check_request
check_request-goes_on_iff me cached msg att s = (
  λ e.
      let (parties, downloaded, in_cache, running) = gates_open _ _ _ _ _ _ e in
      record {
        known = ground arith;
        from_other = ground (arith, str_beq_iff msg.from_user_id me);
        not_downloaded = downloaded;
        not_cached = in_cache;
        not_running = running;
      },
  λ w. ground (
    arith,
    w.known,
    str_beq_iff msg.from_user_id me,
    w.from_other,
    w.not_downloaded,
    w.not_cached,
    w.not_running,
  ),
)
