-- ===== src/Ssdp/Versions.antt =====
-- The replies to a search for a type of device or service.
use npupnp.Common.{
  ℕ, suc, ◌+◌, ◌≡◌, ◌<◌, refl, ap, true, false, some, List, [], ◌∷◌, ◌++◌, Bytes, leb, ltb, length,
  take, drop, span, if◌then◌else◌, equal_nocase, last_index_of, ℤ, pos, ◌&&◌, arith,
}
use npupnp.Uri.Chars.{atoi, is_digit, is_space, decimal}
use npupnp.GenaDevice.Request.{signed32}
use npupnp.Ssdp.Packets.{Message, msgtype_reply, send_reply, usn_of, fitting}
use npupnp.Ssdp.Device.{versioned, same_serv_or_dev_no_vers, serv_or_dev_vers}

-- The one reply: it names the type that was asked for, not our own.
abbrev pub reply_with : Bytes → Bytes → Bytes → ℤ → List Message
reply_with asked udn location exp =
    record {
      msg_type = msgtype_reply;
      nt = asked;
      usn = usn_of udn asked;
      location = location;
      duration = exp;
    }
    ∷ []

send_reply-fits :
    (asked udn location : Bytes) (exp : ℤ)
    → leb 180 (length (usn_of udn asked)) ≡ false
    → send_reply asked false udn location exp true ≡ reply_with asked udn location exp
unfolding send_reply fitting
send_reply-fits asked udn location exp h = ground (arith, h)

-- A type with its version, a digit.
abbrev pub typed : Bytes → ℕ → Bytes
typed t version = t ++ (b':' ∷ (b'0' + version) ∷ [])

last_colon : (t : Bytes) (v : ℕ) → v < 10 → last_index_of b':' (typed t v) ≡ some (length t)
unfolding last_index_of
last_colon [] v h = ground arith
last_colon (c ∷ t) v h = ground (arith, last_colon t v h)

drop-typed : (t : Bytes) (v : ℕ) → drop (suc (length t)) (typed t v) ≡ (b'0' + v) ∷ []
drop-typed [] v = refl
drop-typed (c ∷ t) v = drop-typed t v

take-typed : (t u : Bytes) (v : ℕ) → length t ≡ length u → take (length u) (typed t v) ≡ t
take-typed [] [] v h = refl
take-typed [] (d ∷ u) v h = absurd (omega arith)
take-typed (c ∷ t) [] v h = absurd (omega arith)
take-typed (c ∷ t) (d ∷ u) v h = ap (λ s. c ∷ s) (take-typed t u v (omega arith))

atoi_digit : (v : ℕ) → v < 10 → signed32 (atoi ((b'0' + v) ∷ [])) ≡ pos v
unfolding atoi signed32 is_digit is_space decimal span
atoi_digit v h = ground arith

serv_or_dev_vers-typed : (t : Bytes) (v : ℕ) → v < 10 → serv_or_dev_vers (typed t v) ≡ pos v
unfolding serv_or_dev_vers
serv_or_dev_vers-typed t v h = ground (arith, last_colon t v h, drop-typed t v, atoi_digit v h)

same_serv_or_dev_no_vers-typed :
    (t u : Bytes) (v w : ℕ)
    → length t ≡ length u
    → w < 10
    → same_serv_or_dev_no_vers (typed t v) (typed u w) ≡ equal_nocase t u
unfolding same_serv_or_dev_no_vers
same_serv_or_dev_no_vers-typed t u v w same h =
    ground (arith, last_colon u w h, take-typed t u v same, take-typed u u w refl)

-- Let a search ask for a type `t` in version `v`, and let a device have the type `u`, as long as
-- `t`, in version `w`, where both versions are a digit, and the USN fits in its buffer. There is
-- a reply just when `t` and `u` are the same but for the case of letters and `v` is not above
-- `w`: one reply, for the type and version asked for, at the location of the lower description
-- if `v` is below `w`, and at that of the description if they are equal.
pub versioned_lem :
    (t u udn location lowerloc : Bytes) (exp : ℤ) (v w : ℕ)
    → length t ≡ length u
    → v < 10
    → w < 10
    → leb 180 (length (usn_of udn (typed t v))) ≡ false
    → versioned (typed t v) (typed u w) udn location lowerloc exp ≡ (
        if equal_nocase t u && leb v w
        then reply_with (typed t v) udn (if ltb v w then lowerloc else location) exp
        else [])
unfolding versioned
versioned_lem t u udn location lowerloc exp v w same h k fits = ground (
  arith,
  same_serv_or_dev_no_vers-typed t u v w same k,
  serv_or_dev_vers-typed t v h,
  serv_or_dev_vers-typed u w k,
  send_reply-fits (typed t v) udn location exp fits,
  send_reply-fits (typed t v) udn lowerloc exp fits,
)
