-- ===== src/Protocols/Framing/Headers.antt =====
-- Which headers are accepted, and what an accepted one says.
use securemailscope.Base.{
  ℕ, ◌+◌, ◌*◌, ◌≤◌, ◌<◌, ◌≡◌, ◌↔◌, le→not_ltb, List, Option, none, some, length, get_or, lookup,
  arith,
}
use securemailscope.Protocols.Framing.{
  TlsContentType, RecordHeader, record_header_size, max_record_bytes, content_types,
  classify_record_header, checked_header,
}

-- RFC 8446, section 5.1: a known type, a version 3.0 to 3.4, and a length that is allowed.
pub record IsHeader (window : List ℕ) (h : RecordHeader) : Type 0 where
  pub full : record_header_size ≤ length window
  pub type : get_or window 0 0 ≡ h.content_type
  pub known : lookup h.content_type content_types ≡ some h.name
  pub major : get_or window 1 0 ≡ 3
  pub minor : get_or window 2 0 ≡ h.minor
  pub minor_range : h.minor ≤ 4
  pub declared : get_or window 3 0 * 256 + get_or window 4 0 ≡ h.declared
  pub declared_range : (0 < h.declared) × (h.declared ≤ max_record_bytes)

checked_header-eq-some :
    (t major minor d : ℕ) (x : Option TlsContentType) (h : RecordHeader)
    → checked_header t major minor d x ≡ some h
    → (x ≡ some h.name)
      × (t ≡ h.content_type)
      × (major ≡ 3)
      × (minor ≡ h.minor)
      × (h.minor ≤ 4)
      × (d ≡ h.declared)
      × (0 < h.declared)
      × (h.declared ≤ max_record_bytes)
unfolding checked_header
checked_header-eq-some t major minor d none h e = absurd (cc)
checked_header-eq-some t major minor d (some n) h e = ground arith

checked_header-some :
    (h : RecordHeader)
    → h.minor ≤ 4
    → 0 < h.declared
    → h.declared ≤ max_record_bytes
    → checked_header h.content_type 3 h.minor h.declared (some h.name) ≡ some h
unfolding checked_header
checked_header-some h m l u = ground arith

-- A header is accepted exactly if its type is known, its version is 3.0 to 3.4 and its length is
-- allowed, and it is reported as it stands.
pub classify_record_header_iff :
    (window : List ℕ) (h : RecordHeader)
    → (classify_record_header window ≡ some h) ↔ IsHeader window h
unfolding classify_record_header
classify_record_header_iff window h = (accepted, reported)
  where
    type : ℕ
    type = get_or window 0 0

    accepted : classify_record_header window ≡ some h → IsHeader window h
    accepted e =
        let full : record_header_size ≤ length window = ground arith in
        let c =
          checked_header-eq-some type (get_or window 1 0) (get_or window 2 0)
            (get_or window 3 0 * 256 + get_or window 4 0) (lookup type content_types) h
            (rw (le→not_ltb (length window) record_header_size full) at e) in
        record {
          full = full;
          type = c.1;
          known = rw (← c.1) c.0;
          major = c.2;
          minor = c.3;
          minor_range = c.4;
          declared = c.5;
          declared_range = (c.6, c.7);
        }

    reported : IsHeader window h → classify_record_header window ≡ some h
    reported i = rw (le→not_ltb (length window) record_header_size i.full) (
        rw (i.type, i.known, i.major, i.minor, i.declared)
          (checked_header-some h i.minor_range i.declared_range.0 i.declared_range.1))
