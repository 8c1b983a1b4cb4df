-- ===== src/Header.antt =====
-- src/common/hzl_CommonHeader.c and .h: the CBS header in its seven packed forms. A pack function
-- gives the bytes that it writes to `binary[0]` and on; an unpack function reads them there.
pub mod Pty
pub mod RoundTrip
use Prim.Native.Nat.{bit_and, bit_or}
use hazelnet.Base.{
  ℕ, ◌-◌, ◌*◌, ◌/◌, ◌%◌, ◌^◌, List, [], ◌∷◌, Option, none, some, ltb, ◌==◌, get_or, if◌then◌else◌,
}
use hazelnet.Err.{Err, ok, invalid_header_type}

-- `hzl_Header_t`, unpacked.
pub record Header : Type 0 where
  pub gid : ℕ
  pub sid : ℕ
  pub pty : ℕ

-- `HZL_BROADCAST_GID`
abbrev pub broadcast_gid : ℕ
broadcast_gid = 0

-- `HZL_MAX_UINTx(bits)`
abbrev pub max_uintx : ℕ → ℕ
max_uintx bits = 2 ^ bits - 1

-- `| gggg gggg | ssss ssss | pppp pppp |`
unfoldable pub header0_pack : Header → List ℕ
header0_pack hdr = hdr.gid ∷ hdr.sid ∷ hdr.pty ∷ []

unfoldable pub header1_pack : Header → List ℕ
header1_pack hdr =
    hdr.gid ∷ (bit_or (bit_and hdr.sid 0x1f * 2 ^ 5) (bit_and hdr.pty 0x07) % 256) ∷ []

unfoldable pub header2_pack : Header → List ℕ
header2_pack hdr =
    hdr.sid ∷ (bit_or (bit_and hdr.gid 0x1f * 2 ^ 5) (bit_and hdr.pty 0x07) % 256) ∷ []

-- `| gggs sppp |`
unfoldable pub header3_pack : Header → List ℕ
header3_pack hdr =
    (bit_or (bit_or (bit_and hdr.gid 0x07 * 2 ^ 5) (bit_and hdr.sid 0x03 * 2 ^ 3))
        (bit_and hdr.pty 0x07)
      % 256)
    ∷ []

-- `| sssg gppp |`
unfoldable pub header4_pack : Header → List ℕ
header4_pack hdr =
    (bit_or (bit_or (bit_and hdr.sid 0x07 * 2 ^ 5) (bit_and hdr.gid 0x03 * 2 ^ 3))
        (bit_and hdr.pty 0x07)
      % 256)
    ∷ []

-- `| ssss ssss | .... .ppp |`
unfoldable pub header5_pack : Header → List ℕ
header5_pack hdr = hdr.sid ∷ bit_and hdr.pty 0x07 ∷ []

-- `| ssss sppp |`
unfoldable pub header6_pack : Header → List ℕ
header6_pack hdr = (bit_or (bit_and hdr.sid 0x1f * 2 ^ 3) (bit_and hdr.pty 0x07) % 256) ∷ []

unfoldable pub header0_unpack : List ℕ → Header
header0_unpack binary = record {
  gid = get_or binary 0 0;
  sid = get_or binary 1 0;
  pty = get_or binary 2 0;
}

unfoldable pub header1_unpack : List ℕ → Header
header1_unpack binary = record {
  gid = get_or binary 0 0;
  sid = get_or binary 1 0 / 2 ^ 3;
  pty = bit_and (get_or binary 1 0) 0x07;
}

unfoldable pub header2_unpack : List ℕ → Header
header2_unpack binary = record {
  gid = get_or binary 1 0 / 2 ^ 3;
  sid = get_or binary 0 0;
  pty = bit_and (get_or binary 1 0) 0x07;
}

unfoldable pub header3_unpack : List ℕ → Header
header3_unpack binary = record {
  gid = get_or binary 0 0 / 2 ^ 5;
  sid = bit_and (get_or binary 0 0 / 2 ^ 3) 0x03;
  pty = bit_and (get_or binary 0 0) 0x07;
}

unfoldable pub header4_unpack : List ℕ → Header
header4_unpack binary = record {
  gid = bit_and (get_or binary 0 0 / 2 ^ 3) 0x03;
  sid = get_or binary 0 0 / 2 ^ 5;
  pty = bit_and (get_or binary 0 0) 0x07;
}

unfoldable pub header5_unpack : List ℕ → Header
header5_unpack binary = record {
  gid = broadcast_gid;
  sid = get_or binary 0 0;
  pty = bit_and (get_or binary 1 0) 0x07;
}

unfoldable pub header6_unpack : List ℕ → Header
header6_unpack binary = record {
  gid = broadcast_gid;
  sid = get_or binary 0 0 / 2 ^ 3;
  pty = bit_and (get_or binary 0 0) 0x07;
}

unfoldable pub header_type_check : ℕ → Err
header_type_check type = if ltb 6 type then invalid_header_type else ok

unfoldable pub header_len : ℕ → ℕ
header_len type =
    if type == 0
    then 3
    else if type == 1
    then 2
    else if type == 2
    then 2
    else if type == 5
    then 2
    else if type == 3
    then 1
    else if type == 4
    then 1
    else if type == 6
    then 1
    else 0

unfoldable pub header_type_max_sid : ℕ → ℕ
header_type_max_sid type =
    if type == 0
    then max_uintx 8
    else if type == 1
    then max_uintx 5
    else if type == 2
    then max_uintx 8
    else if type == 3
    then max_uintx 2
    else if type == 4
    then max_uintx 3
    else if type == 5
    then max_uintx 8
    else if type == 6
    then max_uintx 5
    else 0

unfoldable pub header_type_max_gid : ℕ → ℕ
header_type_max_gid type =
    if type == 0
    then max_uintx 8
    else if type == 1
    then max_uintx 8
    else if type == 2
    then max_uintx 5
    else if type == 3
    then max_uintx 3
    else if type == 4
    then max_uintx 2
    else if type == 5
    then max_uintx 0
    else if type == 6
    then max_uintx 0
    else 0

-- `none` is NULL.
unfoldable pub header_pack_func_for_type : ℕ → Option (Header → List ℕ)
header_pack_func_for_type type =
    if type == 0
    then some header0_pack
    else if type == 1
    then some header1_pack
    else if type == 2
    then some header2_pack
    else if type == 3
    then some header3_pack
    else if type == 4
    then some header4_pack
    else if type == 5
    then some header5_pack
    else if type == 6
    then some header6_pack
    else none

unfoldable pub header_unpack_func_for_type : ℕ → Option (List ℕ → Header)
header_unpack_func_for_type type =
    if type == 0
    then some header0_unpack
    else if type == 1
    then some header1_unpack
    else if type == 2
    then some header2_unpack
    else if type == 3
    then some header3_unpack
    else if type == 4
    then some header4_unpack
    else if type == 5
    then some header5_unpack
    else if type == 6
    then some header6_unpack
    else none

-- A call through the function pointer. For NULL, which only a type refused by `header_type_check`
-- gives, C has no behaviour; the model then writes nothing and reads zeros.
unfoldable pub header_pack : ℕ → Header → List ℕ
unfolding header_pack_func_for_type
header_pack type hdr = elim (header_pack_func_for_type type) [ some pack ↦ pack hdr | none ↦ [] ]

unfoldable pub header_unpack : ℕ → List ℕ → Header
unfolding header_unpack_func_for_type
header_unpack type binary = elim (header_unpack_func_for_type type) [
  | some unpack ↦ unpack binary
  | none ↦ record { gid = 0; sid = 0; pty = 0 }
]
