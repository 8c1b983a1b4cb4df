-- ===== src/Tests/Common.antt =====
-- Header, endianness, time and random bytes at concrete inputs.
use hazelnet.Base.{◌+◌, ◌%◌, ◌^◌, ◌≤◌, ◌<◌, ◌≡◌, refl, ◌↔◌, false, arith, [], ◌∷◌, ◌++◌, length}
use hazelnet.Endian.{encode_le24, decode_le24}
use hazelnet.Endian.RoundTrip.{decode_le24-encode_le24}
use hazelnet.Err.{ok, is_ok}
use hazelnet.Header.{
  Header, header_pack, header_unpack, header_len, header_type_max_sid, header_type_max_gid,
}
use hazelnet.Header.RoundTrip.{Fits, received, unpack-pack, unpack-pack_type1, length-header_pack}
use hazelnet.Platform.{trng}
use hazelnet.Timing.{time_delta, ctr_delay}
use hazelnet.Timing.Bounds.{time_delta_exact, ctr_delay_bounds}
use hazelnet.Utils.{is_all_zeros, non_zero_trng, non_zero_trng_loop}
use hazelnet.Utils.Trng.{non_zero_trng_ok, non_zero_trng_fuel}
use hazelnet.Tests.Toy.{toy, toy_float_laws, no_calls}

abbrev from_client : Header
from_client = record { gid = 200; sid = 13; pty = 4 }

abbrev to_group : Header
to_group = record { gid = 200; sid = 0; pty = 4 }

from_client-Fits : Fits 1 from_client
unfolding header_type_max_sid header_type_max_gid
from_client-Fits = omega arith

to_group-Fits : Fits 1 to_group
unfolding header_type_max_sid header_type_max_gid
to_group-Fits = omega arith

unpack-pack_example :
    header_unpack 1 (header_pack 1 from_client ++ (9 ∷ [])) ≡ received 1 from_client
unpack-pack_example = unpack-pack 1 from_client (9 ∷ []) from_client-Fits

unpack-pack_type1_example :
    (header_unpack 1 (header_pack 1 to_group ++ []) ≡ to_group) ↔ (to_group.sid ≡ 0)
unpack-pack_type1_example = unpack-pack_type1 to_group [] to_group-Fits

length-header_pack_example : length (header_pack 4 from_client) ≡ header_len 4
length-header_pack_example = length-header_pack 4 from_client (omega arith)

decode_le24-encode_le24_example : decode_le24 (encode_le24 0x1234567) ≡ 0x1234567 % 2 ^ 24
decode_le24-encode_le24_example = decode_le24-encode_le24 0x1234567

time_delta_exact_example :
    (time_delta 0xffff_fff0 5 < 2 ^ 32) × ((0xffff_fff0 + time_delta 0xffff_fff0 5) % 2 ^ 32 ≡ 5)
time_delta_exact_example = time_delta_exact 0xffff_fff0 5 (omega arith) (omega arith)

ctr_delay_bounds_example :
    (ctr_delay toy 100 130 40 5000 ≤ 40)
    × (5000 ≤ time_delta 100 130 → ctr_delay toy 100 130 40 5000 ≡ 0)
ctr_delay_bounds_example =
    ctr_delay_bounds toy toy_float_laws 100 130 40 5000 (omega arith) (omega arith)

drawn : (non_zero_trng toy no_calls (0 ∷ 0 ∷ []) 2).0 ≡ ok
unfolding non_zero_trng non_zero_trng_loop is_all_zeros trng is_ok
drawn = refl

non_zero_trng_ok_example :
    (is_all_zeros (non_zero_trng toy no_calls (0 ∷ 0 ∷ []) 2).1 ≡ false)
    × (0 < (non_zero_trng toy no_calls (0 ∷ 0 ∷ []) 2).2.random_calls)
    × ((non_zero_trng toy no_calls (0 ∷ 0 ∷ []) 2).2.random_calls ≤ 0 + 21)
non_zero_trng_ok_example = non_zero_trng_ok toy no_calls (0 ∷ 0 ∷ []) 2 drawn

non_zero_trng_fuel_example :
    non_zero_trng_loop toy 23 0 no_calls (0 ∷ []) 1
    ≡ non_zero_trng_loop toy 22 0 no_calls (0 ∷ []) 1
non_zero_trng_fuel_example =
    non_zero_trng_fuel toy 22 0 no_calls (0 ∷ []) 1 (omega arith) (omega arith)
