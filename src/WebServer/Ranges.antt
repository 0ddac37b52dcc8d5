-- ===== src/WebServer/Ranges.antt =====
-- The part of the data that an answer sends lies in the data.
use npupnp.Common.{
  ℕ, ◌+◌, ◌≤◌, ◌≡◌, subst, Bool, Option, some, ◌==◌, Bytes, first_or, null, arith, ℤ, pos, negsuc,
  Bool-cases, inl, inr, Option-cases,
}
use npupnp.WebServer.{WebServer, VirtualDir, LocalDoc, is_file_in_virtual_dir, find_doc}
use npupnp.WebServer.Plan.{
  Transaction, Plan, Processed, fails, plans, requested_range, sized, plan_of, planned, process_doc,
  process_request, is_post,
}
use npupnp.WebServer.Sources.{
  Host, FileInfo, RespType, Search, found, refused, Sought, served_doc, request_doc,
}

-- What holds of the plan, if there is one.
abbrev Answered : (Plan → Type 0) → Processed → Type 0
Answered P (fails code) = Unit
Answered P (plans plan) = P plan

planned-Answered :
    (P : Plan → Type 0) (host : Host) (w : WebServer) (t : Transaction) (now : ℕ)
    (range : ℕ × ℤ × Bool) (dir : Option VirtualDir) (doc : Option LocalDoc) (s : Search)
    → ((r : RespType) (sought : Sought) → P (plan_of host w now t.method range dir doc r sought))
    → Answered P (planned host w now t.method range dir doc s)
planned-Answered P host w t now range dir doc (refused code) h = tt
planned-Answered P host w t now range dir doc (found r sought) h = h r sought

process_doc-Answered :
    (P : Plan → Type 0) (host : Host) (w : WebServer) (t : Transaction) (now : ℕ)
    (range : ℕ × ℤ × Bool) (path : Bytes)
    → ((dir : Option VirtualDir) (doc : Option LocalDoc) (r : RespType) (sought : Sought)
        → P (plan_of host w now t.method range dir doc r sought))
    → Answered P (process_doc host w now t range path)
unfolding process_doc
process_doc-Answered P host w t now range path h =
    let dir = is_file_in_virtual_dir path w.virtual_dir_list in
    let doc = served_doc dir (find_doc path w.local_docs) in
    elim (Bool-cases (null path)) [
      | inl empty ↦ rw (empty) tt
      | inr some_text ↦ rw (some_text) (elim (Bool-cases (first_or 0 path == b'/')) [
        | inl first ↦ rw (first) (planned-Answered P host w t now range dir doc _ (h dir doc))
        | inr other ↦ rw (other) tt
      ])
    ]

-- A plan is made for the range that the headers ask for.
process_request-Answered :
    (P : Plan → Type 0) (host : Host) (w : WebServer) (now : ℕ) (t : Transaction)
    → ((range : ℕ × ℤ × Bool) (dir : Option VirtualDir) (doc : Option LocalDoc) (r : RespType)
          (sought : Sought)
        → requested_range host t.headers ≡ some range
        → P (plan_of host w now t.method range dir doc r sought))
    → Answered P (process_request host w now t)
unfolding process_request
process_request-Answered P host w now t h = elim (Bool-cases (is_post t.method)) [
  | inl post ↦ rw (post) tt
  | inr get ↦ rw (get) (elim (Option-cases (requested_range host t.headers)) [
    | inl bad ↦ rw (bad) tt
    | inr (range, good) ↦ rw (good) (elim (Option-cases (request_doc t.url)) [
      | inl nothing ↦ rw (nothing) tt
      | inr (path, eq) ↦ rw (eq) (
          process_doc-Answered P host w t now range path
            (λ dir doc r sought. h range dir doc r sought good))
    ])
  ])
]

-- So many bytes from the offset on lie in the data.
abbrev pub InData : ℕ → ℤ → ℕ → Type 0
InData offset (pos size) total = offset + size ≤ total
InData offset (negsuc n) total = ⊥

sized-InData :
    (info : FileInfo) (offset total : ℕ) (size : ℤ)
    → info.file_length ≡ pos total
    → offset ≤ total
    → InData offset (sized info offset size) total
unfolding sized
sized-InData info offset total (negsuc n) e h = ground (arith, e)
sized-InData info offset total (pos size) e h = ground (arith, e)

-- When a request is answered with data of a known size and its range starts no later than the
-- data ends, what is sent from the offset on is a number of bytes, and it ends no later than the
-- data.
pub process_request-InData :
    (host : Host) (w : WebServer) (now : ℕ) (t : Transaction) (plan : Plan) (total : ℕ)
    → process_request host w now t ≡ plans plan
    → plan.instruction.total_size ≡ pos total
    → plan.instruction.offset ≤ total
    → InData plan.instruction.offset plan.instruction.read_send_size total
process_request-InData host w now t plan total eq known h =
    subst
      (Answered (λ p.
        p.instruction.total_size ≡ pos total
        → p.instruction.offset ≤ total
        → InData p.instruction.offset p.instruction.read_send_size total))
      eq
      (process_request-Answered _ host w now t
        (λ (offset, size, partial) dir doc r (name, info, c) good e k.
          sized-InData info offset total size e k))
      known h
