-- ===== src/Loading/Client/RoundTrip.antt =====
-- A file in the format that hzl_ClientNew reads.
use hazelnet.Base.{ℕ, ◌^◌, ◌<◌, List, [], ◌∷◌, ◌++◌, Option, some, none}
use hazelnet.Base.All.{All}
use hazelnet.Endian.{encode_le16, encode_le32}
use hazelnet.Loading.Heap.{Heap}
use hazelnet.Loading.Stream.{print_each}
use hazelnet.Loading.Client.{Handle}
use hazelnet.Client.{ClientConfig, GroupConfig, ClientCtx}

-- The fields of the Client, and a byte of padding.
abbrev config_bytes : ClientConfig → List ℕ
config_bytes c =
    encode_le16 c.timeout_req_to_res_millis
    ++ (c.ltk ++ (c.sid ∷ c.header_type ∷ c.amount_of_groups ∷ 0 ∷ []))

-- The fields of a Group, and three bytes of padding.
abbrev group_bytes : GroupConfig → List ℕ
group_bytes g =
    encode_le32 g.max_ctrnonce_delay_msgs
    ++ (encode_le16 g.max_silence_interval_millis
        ++ (encode_le16 g.session_renewal_duration_millis ++ (g.gid ∷ 0 ∷ 0 ∷ 0 ∷ [])))

-- "HZLc" and a zero, the Client and the Groups; what follows is not read.
abbrev pub client_file : ClientConfig → List GroupConfig → List ℕ → List ℕ
client_file config groups rest =
    72 ∷ 90 ∷ 76 ∷ 99 ∷ 0 ∷ (config_bytes config ++ print_each group_bytes groups rest)

-- The numbers fit into the fields of the structure.
pub record FitsFields (g : GroupConfig) : Type 0 where
  pub delay_fits : g.max_ctrnonce_delay_msgs < 2 ^ 32
  pub silence_fits : g.max_silence_interval_millis < 2 ^ 16
  pub renewal_fits : g.session_renewal_duration_millis < 2 ^ 16

-- The context that a handle points to.
abbrev pub context_of : Handle → Option ClientCtx
context_of none = none
context_of (some h) = some h.1
