-- ===== src/Header/RoundTrip.antt =====
-- Which header forms give a header back: all but the second and third, in which the SID (the GID)
-- is shifted by five bits and read from the third bit on.
use Prim.Native.Nat.{bit_and, bit_or}
use hazelnet.Base.{
  ℕ, zero, suc, ◌+◌, ◌*◌, ◌/◌, ◌%◌, ◌^◌, ◌≤◌, ◌<◌, ◌≡◌, refl, Bool, true, List, ◌++◌, arith, ◌==◌,
  length, ap, sym, ◌∙◌, ◌↔◌, if◌then◌else◌, ◌&&◌,
}
use hazelnet.Base.Bits.{bit_or-high_low, all_below, all_below_at}
use hazelnet.Header.{
  Header, header0_pack, header0_unpack, header1_pack, header2_pack, header3_pack, header4_pack,
  header5_pack, header6_pack, header1_unpack, header2_unpack, header3_unpack, header4_unpack,
  header5_unpack, header6_unpack, header_type_max_sid, header_type_max_gid, header_len, header_pack,
  header_unpack,
}

low_bits_table :
    all_below 256 (λ x. bit_and x 7 == x % 8 && (bit_and x 3 == x % 4 && bit_and x 31 == x % 32))
    ≡ true
unfolding all_below
low_bits_table = refl

pub low_bits :
    (x : ℕ) → x < 256 → (bit_and x 7 ≡ x % 8) × (bit_and x 3 ≡ x % 4) × (bit_and x 31 ≡ x % 32)
low_bits x h = ground (arith, all_below_at 256 test x low_bits_table h)
  where
    test : ℕ → Bool
    test x = bit_and x 7 == x % 8 && (bit_and x 3 == x % 4 && bit_and x 31 == x % 32)

-- The fields are in the range of their header form.
pub record Fits (type : ℕ) (hdr : Header) : Type 0 where
  pub known : type ≤ 6
  pub gid_fits : hdr.gid ≤ header_type_max_gid type
  pub sid_fits : hdr.sid ≤ header_type_max_sid type
  pub pty_fits : hdr.pty ≤ 7

-- Two fields, `((high & 31) << k) | (low & 7)`, in one byte.
masked_fields :
    (k high low : ℕ)
    → 8 ≤ 2 ^ k
    → high ≤ 31
    → low ≤ 7
    → bit_or (bit_and high 31 * 2 ^ k) (bit_and low 7) ≡ high * 2 ^ k + low
masked_fields k high low hk hh hl = rw (mask31, mask7) (bit_or-high_low k high low (omega arith))
  where
    mask31 : bit_and high 31 ≡ high
    mask31 = omega (arith, (low_bits high (omega arith)).2)

    mask7 : bit_and low 7 ≡ low
    mask7 = omega (arith, (low_bits low (omega arith)).0)

-- Three fields of three, two and three bits in one byte.
three_fields :
    (a b c : ℕ)
    → a ≤ 7
    → b ≤ 3
    → c ≤ 7
    → bit_or (bit_or (bit_and a 7 * 2 ^ 5) (bit_and b 3 * 2 ^ 3)) (bit_and c 7) % 256
      ≡ a * 32 + b * 8 + c
three_fields a b c ha hb hc =
    rw (mask7 a ha, mask3, mask7 c hc, bit_or-high_low 5 a (b * 2 ^ 3) (omega arith), joined)
      (omega (arith, bit_or-high_low 3 (a * 4 + b) c (omega arith)))
  where
    mask7 : (x : ℕ) → x ≤ 7 → bit_and x 7 ≡ x
    mask7 x h = omega (arith, (low_bits x (omega arith)).0)

    mask3 : bit_and b 3 ≡ b
    mask3 = omega (arith, (low_bits b (omega arith)).1)

    joined : a * 2 ^ 5 + b * 2 ^ 3 ≡ (a * 4 + b) * 2 ^ 3
    joined = omega arith

module _ (gid sid pty : ℕ) (rest : List ℕ) (hp : pty ≤ 7) where
  abbrev hdr : Header
  hdr = record { gid = gid; sid = sid; pty = pty }

  -- The five-bit SID comes back shifted by two: its low three bits, times four.
  header1_trip :
      sid ≤ 31
      → header1_unpack (header1_pack hdr ++ rest)
        ≡ record { gid = gid; sid = sid % 8 * 4; pty = pty }
  unfolding header1_unpack header1_pack
  header1_trip h =
      rw (masked_fields 5 sid pty (omega arith) h hp)
        (ground (arith, low_bits ((sid * 32 + pty) % 256) (omega arith)))

  header2_trip :
      gid ≤ 31
      → header2_unpack (header2_pack hdr ++ rest)
        ≡ record { gid = gid % 8 * 4; sid = sid; pty = pty }
  unfolding header2_unpack header2_pack
  header2_trip h =
      rw (masked_fields 5 gid pty (omega arith) h hp)
        (ground (arith, low_bits ((gid * 32 + pty) % 256) (omega arith)))

  header3_trip : gid ≤ 7 → sid ≤ 3 → header3_unpack (header3_pack hdr ++ rest) ≡ hdr
  unfolding header3_unpack header3_pack
  header3_trip hg hs = rw (three_fields gid sid pty hg hs hp) (
      ground (
        arith,
        low_bits ((gid * 32 + sid * 8 + pty) / 8) (omega arith),
        low_bits (gid * 32 + sid * 8 + pty) (omega arith),
      ))

  header4_trip : gid ≤ 3 → sid ≤ 7 → header4_unpack (header4_pack hdr ++ rest) ≡ hdr
  unfolding header4_unpack header4_pack
  header4_trip hg hs = rw (three_fields sid gid pty hs hg hp) (
      ground (
        arith,
        low_bits ((sid * 32 + gid * 8 + pty) / 8) (omega arith),
        low_bits (sid * 32 + gid * 8 + pty) (omega arith),
      ))

  header5_trip : gid ≤ 0 → header5_unpack (header5_pack hdr ++ rest) ≡ hdr
  unfolding header5_unpack header5_pack
  header5_trip hg = ground (
    arith,
    low_bits pty (omega arith),
    low_bits (bit_and pty 7) (omega (arith, low_bits pty (omega arith))),
  )

  header6_trip : gid ≤ 0 → sid ≤ 31 → header6_unpack (header6_pack hdr ++ rest) ≡ hdr
  unfolding header6_unpack header6_pack
  header6_trip hg hs =
      rw (masked_fields 3 sid pty (omega arith) hs hp)
        (ground (arith, low_bits ((sid * 8 + pty) % 256) (omega arith)))

-- What a receiver reads of a packed header.
pub received : ℕ → Header → Header
received type hdr =
    if type == 1
    then record hdr { sid = hdr.sid % 8 * 4 }
    else if type == 2
    then record hdr { gid = hdr.gid % 8 * 4 }
    else hdr

-- For a header whose fields fit, of any of the seven types, unpacking what was packed gives the
-- header back, except that type 1 gives the SID, and type 2 the GID, as the low three bits of
-- it times four.
pub unpack-pack :
    (type : ℕ) (hdr : Header) (rest : List ℕ)
    → Fits type hdr
    → header_unpack type (header_pack type hdr ++ rest) ≡ received type hdr
unfolding header_unpack header_pack header0_pack header0_unpack received header_type_max_gid
    header_type_max_sid
unpack-pack zero h rest f = refl
unpack-pack (suc zero) h rest f = header1_trip h.gid h.sid h.pty rest f.pty_fits (omega arith)
unpack-pack (suc (suc zero)) h rest f = header2_trip h.gid h.sid h.pty rest f.pty_fits (omega arith)
unpack-pack (suc (suc (suc zero))) h rest f =
    header3_trip h.gid h.sid h.pty rest f.pty_fits (omega arith) (omega arith)
unpack-pack (suc (suc (suc (suc zero)))) h rest f =
    header4_trip h.gid h.sid h.pty rest f.pty_fits (omega arith) (omega arith)
unpack-pack (suc (suc (suc (suc (suc zero))))) h rest f =
    header5_trip h.gid h.sid h.pty rest f.pty_fits (omega arith)
unpack-pack (suc (suc (suc (suc (suc (suc zero)))))) h rest f =
    header6_trip h.gid h.sid h.pty rest f.pty_fits (omega arith) (omega arith)
unpack-pack (suc (suc (suc (suc (suc (suc (suc type))))))) h rest f =
    absurd (omega (arith, f.known))

-- A header whose fields fit survives packing and unpacking, provided that its SID is 0 under
-- type 1, and its GID is 0 under type 2.
pub unpack-pack_exact :
    (type : ℕ) (hdr : Header) (rest : List ℕ)
    → Fits type hdr
    → (type ≡ 1 → hdr.sid ≡ 0)
    → (type ≡ 2 → hdr.gid ≡ 0)
    → header_unpack type (header_pack type hdr ++ rest) ≡ hdr
unfolding received
unpack-pack_exact type h rest f h1 h2 = ground (arith, unpack-pack type h rest f, h1, h2)

-- Under type 1 a header whose fields fit survives exactly when its SID is 0, the Server's.
pub unpack-pack_type1 :
    (hdr : Header) (rest : List ℕ)
    → Fits 1 hdr
    → (header_unpack 1 (header_pack 1 hdr ++ rest) ≡ hdr) ↔ (hdr.sid ≡ 0)
unfolding received header_type_max_sid
unpack-pack_type1 h rest f = (
  (λ e.
      let k : h.sid % 8 * 4 ≡ h.sid = ap Header.sid (sym (unpack-pack 1 h rest f) ∙ e) in
      omega (arith, f.sid_fits)),
  (λ e. unpack-pack_exact 1 h rest f (λ _. e) (λ absent. absurd (omega arith))),
)

-- The packed header takes `header_len` bytes, for each of the seven types.
pub length-header_pack :
    (type : ℕ) (hdr : Header) → type ≤ 6 → length (header_pack type hdr) ≡ header_len type
unfolding header_pack header_len header0_pack header1_pack header2_pack header3_pack header4_pack
    header5_pack header6_pack
length-header_pack type h known = ground arith
