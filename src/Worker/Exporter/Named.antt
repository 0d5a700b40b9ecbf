-- ===== src/Worker/Exporter/Named.antt =====
-- The protocols that `build_exporter` of src/worker.rs knows, in upper or lower case.
use pg_otel.Prelude.{
  ◌≡◌, refl, ◌⊎◌, inl, inr, ◌↔◌, Bool, true, false, ◌||◌, if◌then◌else◌, Option, none, some, [],
  ◌∷◌, map, arith,
}
use pg_otel.Prelude.Text.{bytes_eq, bytes_eq_sound, to_ascii_lowercase}
use pg_otel.Span.{Str}
use pg_otel.Worker.Exporter.{
  Transport, grpc, http, grpc_name, tonic_name, http_name, protobuf_name, binary_name, transport_of,
}

-- The names of a transport: grpc and grpc-tonic, or http, http/protobuf and http-binary.
abbrev pub IsNameOf : Str → Transport → Type 0
IsNameOf name grpc =
    (name ≡ 103 ∷ 114 ∷ 112 ∷ 99 ∷ [])
    ⊎ (name ≡ 103 ∷ 114 ∷ 112 ∷ 99 ∷ 45 ∷ 116 ∷ 111 ∷ 110 ∷ 105 ∷ 99 ∷ [])
IsNameOf name http =
    (name ≡ 104 ∷ 116 ∷ 116 ∷ 112 ∷ [])
    ⊎ ((name ≡ 104 ∷ 116 ∷ 116 ∷ 112 ∷ 47 ∷ 112 ∷ 114 ∷ 111 ∷ 116 ∷ 111 ∷ 98 ∷ 117 ∷ 102 ∷ [])
        ⊎ (name ≡ 104 ∷ 116 ∷ 116 ∷ 112 ∷ 45 ∷ 98 ∷ 105 ∷ 110 ∷ 97 ∷ 114 ∷ 121 ∷ []))

abbrev pub IsNamed : Str → Transport → Type 0
IsNamed protocol transport = IsNameOf (map to_ascii_lowercase protocol) transport

-- The tests of the names, as the code nests them.
abbrev chosen : (a b c d e : Bool) → Option Transport
chosen a b c d e = if a || b then some grpc else if c || (d || e) then some http else none

grpc_chosen : (a b c d e : Bool) → chosen a b c d e ≡ some grpc → (a ≡ true) ⊎ (b ≡ true)
grpc_chosen true b c d e h = inl refl
grpc_chosen false true c d e h = inr refl
grpc_chosen false false c d e h = absurd (ground arith)

http_chosen :
    (a b c d e : Bool) → chosen a b c d e ≡ some http → (c ≡ true) ⊎ ((d ≡ true) ⊎ (e ≡ true))
http_chosen true b c d e h = cc
http_chosen false true c d e h = cc
http_chosen false false true d e h = inl refl
http_chosen false false false true e h = inr (inl refl)
http_chosen false false false false true h = inr (inr refl)
http_chosen false false false false false h = cc

transport_of-IsNamed :
    (protocol : Str) (t : Transport) → transport_of protocol ≡ some t → IsNamed protocol t
unfolding transport_of
transport_of-IsNamed protocol grpc h =
    let is = bytes_eq (map to_ascii_lowercase protocol) in
    elim (grpc_chosen (is grpc_name) (is tonic_name) (is http_name) (is protobuf_name)
      (is binary_name) h) [
        | inl a ↦ inl (bytes_eq_sound (map to_ascii_lowercase protocol) grpc_name a)
        | inr b ↦ inr (bytes_eq_sound (map to_ascii_lowercase protocol) tonic_name b)
      ]
transport_of-IsNamed protocol http h =
    let is = bytes_eq (map to_ascii_lowercase protocol) in
    elim (http_chosen (is grpc_name) (is tonic_name) (is http_name) (is protobuf_name)
      (is binary_name) h) [
        | inl c ↦ inl (bytes_eq_sound (map to_ascii_lowercase protocol) http_name c)
        | inr (inl d) ↦ inr (inl (bytes_eq_sound (map to_ascii_lowercase protocol) protobuf_name d))
        | inr (inr e) ↦ inr (inr (bytes_eq_sound (map to_ascii_lowercase protocol) binary_name e))
      ]

IsNamed-transport_of :
    (protocol : Str) (t : Transport) → IsNamed protocol t → transport_of protocol ≡ some t
unfolding transport_of bytes_eq
IsNamed-transport_of protocol grpc (inl e) = rw e refl
IsNamed-transport_of protocol grpc (inr e) = rw e refl
IsNamed-transport_of protocol http (inl e) = rw e refl
IsNamed-transport_of protocol http (inr (inl e)) = rw e refl
IsNamed-transport_of protocol http (inr (inr e)) = rw e refl

pub transport_of_iff :
    (protocol : Str) (t : Transport) → (transport_of protocol ≡ some t) ↔ IsNamed protocol t
transport_of_iff protocol t = (transport_of-IsNamed protocol t, IsNamed-transport_of protocol t)
