-- ===== src/Dispatcher/Uploads.antt =====
-- The body of a request, in pieces and whole.
use npupnp.Common.{
  ◌≡◌, refl, ap, ◌∙◌, sym, true, List, [], ◌∷◌, ◌++◌, Bytes, append_assoc, append-nil,
}
use npupnp.Dispatcher.{Request}
use npupnp.Dispatcher.Hosts.{Setup}
use npupnp.Dispatcher.Answer.{
  upload_all, answer_upload, Callbacks, callback_for, called, service_for, Opening, answer_last,
  answer_to_connection, new_request, answer_first,
}

-- The pieces one behind another.
abbrev pub whole : List Bytes → Bytes
whole [] = []
whole (piece ∷ pieces) = piece ++ whole pieces

pub upload_all-whole :
    (pieces : List Bytes) (t : Request)
    → upload_all pieces t ≡ record t { postdata = t.postdata ++ whole pieces }
unfolding upload_all
upload_all-whole [] t = ap (λ b. record t { postdata = b }) (sym (append-nil t.postdata))
upload_all-whole (piece ∷ pieces) t =
    upload_all-whole pieces (answer_upload piece t)
    ∙ ap (λ b. record t { postdata = b }) (append_assoc t.postdata piece (whole pieces))

-- With host validation turned off, the pieces of the body, however they are cut, are given in one
-- call to the callback of the service for the request's method.
pub answer_to_connection-whole :
    {S R : Type 0} (s : Setup) (c : Callbacks S R) (o : Opening) (pieces : List Bytes) (st : S)
    → s.no_host_validate ≡ true
    → answer_to_connection s c o pieces st
      ≡ called
          (callback_for c (service_for (new_request o).method))
          (record (new_request o) { postdata = whole pieces })
          st
unfolding answer_to_connection answer_first answer_last
answer_to_connection-whole s c o pieces st h =
    simp (h, upload_all-whole pieces (new_request o)) refl
