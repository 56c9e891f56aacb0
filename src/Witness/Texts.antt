-- ===== src/Witness/Texts.antt =====
-- The matcher, the array of masks and the texts of utils.c, and the cluster messages, on concrete inputs.
use redis_keyspace_amqp.Base.{
  ◌+◌, ◌*◌, ◌<◌, ◌==◌, if◌then◌else◌, ◌≤◌, ◌≡◌, ◌↔◌, refl, true, false, [], ◌∷◌, ◌++◌, map, some,
  Bytes, codes, c_str, length, arith, all,
}
use redis_keyspace_amqp.Memory.{done, fault, ◌>>=◌, ◌>>◌, check}
use redis_keyspace_amqp.Match.{match}
use redis_keyspace_amqp.Match.Spec.{Occurs}
use redis_keyspace_amqp.Match.Decides.{match_iff}
use redis_keyspace_amqp.Match.Plain.{match-plain}
use redis_keyspace_amqp.StringArray.{init}
use redis_keyspace_amqp.StringArray.First.{Filled, first_need, add_all-first}
use redis_keyspace_amqp.Wire.{
  join, split_loop, redis_args_to_serialized_string, serialized_string_to_redis_args,
}
use redis_keyspace_amqp.Wire.RoundTrip.{decode-encode}
use redis_keyspace_amqp.Wire.Fields.{fields, has_newline, decode-fields}
use redis_keyspace_amqp.Wire.Faults.{encode-faults_iff}
use redis_keyspace_amqp.Cluster.{cluster_message_receiver}
use redis_keyspace_amqp.Cluster.Carry.{carry, receiver-carry}
use redis_keyspace_amqp.Event.{message_string}
use redis_keyspace_amqp.Event.Message.{message_size, message-fits, first_line, value, message-reads}
use redis_keyspace_amqp.Cluster.Dispatch.{received}
use redis_keyspace_amqp.Load.{subscription_mode}
use redis_keyspace_amqp.Load.Events.{is_some, is_flag, subscription_mode-is_flag}
use redis_keyspace_amqp.Command.{cluster_message_type_cmd}
use redis_keyspace_amqp.Samples.{command, roomy, tight, list_key, up, server}

match_iff_example :
    (match (codes "^user:.*$") (codes "user:7") ≡ true)
    ↔ Occurs (codes "^user:.*$") (codes "user:7")
match_iff_example = match_iff (codes "^user:.*$") (codes "user:7")

match_user : match (codes "^user:.*$") (codes "user:7") ≡ true
unfolding match
match_user = refl

match_other : match (codes "^user:.*$") (codes "my_user:7") ≡ false
unfolding match
match_other = refl

match-plain_example :
    (match (codes "session") (codes "my_session") ≡ true)
    ↔ ((pre : Bytes) × (post : Bytes) × (codes "my_session" ≡ pre ++ (codes "session" ++ post)))
match-plain_example = match-plain (codes "session") (codes "my_session") refl

nul_first : c_str (0 ∷ codes "9") ≡ []
unfolding c_str
nul_first = refl

decode-encode_example :
    (redis_args_to_serialized_string roomy (codes "mask" ∷ codes "cart" ∷ [] ∷ []) >>= λ text.
    serialized_string_to_redis_args roomy (text ++ 0 ∷ codes "9"))
    ≡ done (codes "mask" ∷ codes "cart" ∷ [])
decode-encode_example =
    decode-encode roomy (codes "mask" ∷ codes "cart" ∷ [] ∷ []) (λ e. cc) (refl, (refl, (refl, tt)))
      (omega arith) (omega arith) (omega arith) (0 ∷ codes "9") nul_first

-- Two lines of one letter, and a NUL with more behind it.
abbrev two_lines : Bytes
two_lines = 97 ∷ 10 ∷ 98 ∷ 0 ∷ 99 ∷ []

decode-fields_example : serialized_string_to_redis_args tight two_lines ≡ (
    check
      (8 * length (fields (c_str two_lines)))
      (if has_newline (c_str two_lines) then tight.usable 8 else tight.usable 0)
    >> done (fields (c_str two_lines)))
decode-fields_example = decode-fields tight two_lines

two_lines_faults : serialized_string_to_redis_args tight two_lines ≡ fault
unfolding serialized_string_to_redis_args split_loop c_str
two_lines_faults = refl

encode-faults_iff_example :
    (redis_args_to_serialized_string tight (codes "a" ∷ map (λ _. []) (codes "1234567")) ≡ fault)
    ↔ (8 < 9)
encode-faults_iff_example =
    encode-faults_iff tight (codes "a") (map (λ _. []) (codes "1234567"))
      (refl, (refl, (refl, (refl, (refl, (refl, (refl, (refl, tt))))))))

abbrev message : Bytes
message = join command

receiver-carry_example :
    cluster_message_receiver list_key up 191 message (0 ∷ codes "behind") (server (some 1)) ≡ (
      if 191 == cluster_message_type_cmd
      then carry list_key up
          (fields (c_str (message ++ 0 ∷ codes "behind")))
          (received list_key up (server (some 1)))
      else done (received list_key up (server (some 1))))
unfolding c_str join
receiver-carry_example =
    receiver-carry list_key up 191 message (0 ∷ codes "behind") (server (some 1))
      (omega arith, omega arith)

add_all-first_example :
    Filled tight (first_need tight command) command (init tight 0 8) (map c_str command)
add_all-first_example = add_all-first tight command (omega arith)

message-fits_example :
    length (message_string 2147483647 (codes "expired") (codes "user:7")) + 1
    ≤ message_size (codes "expired") (codes "user:7")
message-fits_example = message-fits 2147483647 (codes "expired") (codes "user:7")

message-reads_example :
    (value 0 (first_line (message_string 15 (codes "expired") (codes "user:7"))).0 ≡ 15)
    × (first_line (first_line (message_string 15 (codes "expired") (codes "user:7"))).1
        ≡ (codes "expired", codes "user:7"))
message-reads_example = message-reads 15 (codes "expired") (codes "user:7") (omega arith) refl

subscription_mode-is_flag_example :
    is_some (subscription_mode (codes "Kx" ∷ [])) ≡ all is_flag (c_str (codes "Kx"))
subscription_mode-is_flag_example = subscription_mode-is_flag (codes "Kx") []
