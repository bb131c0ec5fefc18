-- ===== src/RemoteLog/Recovery.antt =====
-- RemoteLog.antt: what a scan finds of the calls made before it.
use ultra_net.Prelude.{
  ℕ, ◌<◌, ◌^◌, ◌≡◌, refl, sym, ap, ◌∙◌, Bool, true, false, List, [], ◌∷◌, ◌++◌, Option, some, arith,
  length, append-nil, Bytes, All, All-append, inl, inr, ◌⊎◌,
}
use ultra_net.Log.{Frame, frame_bytes, log_bytes, read_frame, torn}
use ultra_net.Log.Frames.{IsFrame, log_bytes-snoc, log_bytes-nil}
use ultra_net.Log.Recovery.{scan-log_bytes, scan_torn, read_frame_torn}
use ultra_net.RemoteLog.{
  magic, data_ids, RemoteLog, scan_result, scan_remote_log, Answer, answers, append_data,
  append_ack, append_record_locked,
}
use ultra_net.RemoteLog.Append.{
  IsLog, IsCall, append_record_locked-front, add_data, add_ack, append_data-IsLog, append_ack-IsLog,
}

-- A call, with what `write` and `fsync` are to give it.
pub data Call : Type 0 where
  data_call : ℕ → Bytes → List (Option ℕ) → Bool → Call
  ack_call : ℕ → List (Option ℕ) → Bool → Call

unfoldable pub call : RemoteLog → Call → RemoteLog × Answer
call l (data_call id body os synced) = append_data l id body os synced
call l (ack_call id os synced) = append_ack l id os synced

unfoldable pub run : RemoteLog → List Call → RemoteLog
run l [] = l
run l (c ∷ cs) = run (call l c).0 cs

-- All calls answer true.
unfoldable pub AllAnswer : RemoteLog → List Call → Type 0
AllAnswer l [] = Unit
AllAnswer l (c ∷ cs) = ((call l c).1 ≡ answers true) × AllAnswer (call l c).0 cs

unfoldable pub IsCallOf : Call → Type 0
IsCallOf (data_call id body os synced) = IsCall id body
IsCallOf (ack_call id os synced) = id < 2 ^ 64

-- The records the calls ask for: data once for an id, acknowledgements each time.
unfoldable pub asked : List Frame → List Call → List Frame
asked fs [] = fs
asked fs (data_call id body os synced ∷ cs) = asked (add_data fs id body) cs
asked fs (ack_call id os synced ∷ cs) = asked (add_ack fs id) cs

run-IsLog :
    (l : RemoteLog) (fs : List Frame) (cs : List Call)
    → IsLog l fs
    → All IsCallOf cs
    → AllAnswer l cs
    → IsLog (run l cs) (asked fs cs)
unfolding run asked AllAnswer call IsCallOf
run-IsLog l fs [] v c a = v
run-IsLog l fs (data_call id body os synced ∷ cs) v (c, cs') (a, as') =
    run-IsLog (append_data l id body os synced).0 (add_data fs id body) cs
      (append_data-IsLog l fs id body os synced v c a) cs' as'
run-IsLog l fs (ack_call id os synced ∷ cs) v (c, cs') (a, as') =
    run-IsLog (append_ack l id os synced).0 (add_ack fs id) cs
      (append_ack-IsLog l fs id os synced v c a) cs' as'

scan_remote_log-log_bytes :
    (fs : List Frame)
    → All (IsFrame 8) fs
    → scan_remote_log (some (log_bytes magic fs)) ≡ some (scan_result fs false)
unfolding scan_remote_log
scan_remote_log-log_bytes fs v = ground (arith, scan-log_bytes magic 8 fs refl v)

pub scan_remote_log_torn :
    (fs : List Frame) (t : Bytes)
    → All (IsFrame 8) fs
    → 0 < length t
    → read_frame magic 8 t ≡ torn
    → scan_remote_log (some (log_bytes magic fs ++ t)) ≡ some (scan_result fs true)
unfolding scan_remote_log
scan_remote_log_torn fs t v pos e = ground (arith, scan_torn magic 8 fs t refl v pos e)

pub empty-IsLog : IsLog (record { fd_open = true; file = []; ids = [] }) []
unfolding data_ids
empty-IsLog = record { file = log_bytes-nil magic; frames = tt; ids = λ i. refl }

-- Where calls on an empty log, whose ids and bodies fit a record, all answered true, a scan of the file
-- finds exactly the records they asked for, each message once, and no torn one.
pub scan_remote_log-run :
    (cs : List Call)
    → All IsCallOf cs
    → AllAnswer (record { fd_open = true; file = []; ids = [] }) cs
    → scan_remote_log (some (run (record { fd_open = true; file = []; ids = [] }) cs).file)
      ≡ some (scan_result (asked [] cs) false)
scan_remote_log-run cs c a =
    let empty : RemoteLog = record { fd_open = true; file = []; ids = [] } in
    let v = run-IsLog empty [] cs empty-IsLog c a in
    ap (λ s. scan_remote_log (some s)) v.file ∙ scan_remote_log-log_bytes (asked [] cs) v.frames

front_found :
    (fs : List Frame) (f : Frame) (p q : Bytes)
    → All (IsFrame 8) fs
    → IsFrame 8 f
    → p ++ q ≡ frame_bytes magic f
    → let found = scan_remote_log (some (log_bytes magic fs ++ p)) in
      (found ≡ some (scan_result fs false))
      ⊎ (found ≡ some (scan_result fs true))
      ⊎ (found ≡ some (scan_result (fs ++ (f ∷ [])) false))
front_found fs f [] q v g e = inl (
    ap (λ s. scan_remote_log (some s)) (append-nil (log_bytes magic fs))
    ∙ scan_remote_log-log_bytes fs v)
front_found fs f (b ∷ p) [] v g e = inr (
    inr (
      ap (λ s. scan_remote_log (some (log_bytes magic fs ++ s))) (sym (append-nil (b ∷ p)) ∙ e)
      ∙ ap (λ s. scan_remote_log (some s)) (sym (log_bytes-snoc magic fs f))
      ∙ scan_remote_log-log_bytes (fs ++ (f ∷ [])) (All-append (IsFrame 8) fs (f ∷ []) v (g, tt))))
front_found fs f (b ∷ p) (c ∷ q) v g e = inr (
    inl (
      scan_remote_log_torn fs (b ∷ p) v (omega arith)
        (read_frame_torn magic 8 f (b ∷ p) (c ∷ q) refl g e (omega arith))))

-- Whatever `write` gives to an append to a file of whole records, a scan of the file afterwards finds
-- the records before it and no torn one, the records before it and a torn one, or the records before it
-- and the new one.
pub append_record_locked_cut :
    (l : RemoteLog) (fs : List Frame) (f : Frame) (os : List (Option ℕ)) (synced : Bool)
    → IsLog l fs
    → IsFrame 8 f
    → let found = scan_remote_log (some (append_record_locked l f os synced).0.file) in
      (found ≡ some (scan_result fs false))
      ⊎ (found ≡ some (scan_result fs true))
      ⊎ (found ≡ some (scan_result (fs ++ (f ∷ [])) false))
append_record_locked_cut l fs f os synced v g =
    let (p, q, e, grows) = append_record_locked-front l f os synced in
    let file = grows ∙ ap (λ s. s ++ p) v.file in
    elim (front_found fs f p q v.frames g e) [
      | inl r ↦ inl (ap (λ s. scan_remote_log (some s)) file ∙ r)
      | inr (inl r) ↦ inr (inl (ap (λ s. scan_remote_log (some s)) file ∙ r))
      | inr (inr r) ↦ inr (inr (ap (λ s. scan_remote_log (some s)) file ∙ r))
    ]
