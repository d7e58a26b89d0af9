-- ===== src/Tests/Addresses.antt =====
-- A splitter of hosts and ports that meets the laws, and a resolver without names.
use mlist.Prelude.{
  ℕ, suc, ◌<◌, ◌≡◌, refl, ap, ◌∙◌, [], ◌∷◌, ◌++◌, Bool, false, Option, none, some, arith, ltb, ◌==◌,
  if◌then◌else◌, ℕ_discrete, count, length, length-append, take, drop,
}
use mlist.Wire.RoundTrip.{take-append}
use mlist.Addresses.Ports.{
  Text, colon, opening, closing, last_index, last_index-append, Lacks, bracketed, with_port,
}
use mlist.Addresses.Resolve.{Resolver, SplitsPorts, resolve_addr}
use mlist.Addresses.ResolveLaws.{resolve_addr-literal}

starts_with : ℕ → Text → Bool
starts_with c [] = false
starts_with c (x ∷ s) = x == c

-- A host in brackets without them, and one with a colon is refused.
unbracket : Text → Text → Option (Text × Text)
unbracket host port =
    if starts_with opening host
    then some (take (length (drop 2 host)) (drop 1 host), port)
    else if ltb 0 (count ℕ_discrete colon host)
    then none
    else some (host, port)

split_host_port : Text → Option (Text × Text)
split_host_port s = elim (last_index s colon) [
  | none ↦ none
  | some i ↦ unbracket (take i s) (drop (suc i) s)
]

drop-append_left : (s t : Text) (x : ℕ) → drop (suc (length s)) (s ++ (x ∷ t)) ≡ t
drop-append_left [] t x = refl
drop-append_left (y ∷ s) t x = drop-append_left s t x

split_at_last :
    (host port : Text)
    → Lacks colon port
    → split_host_port (with_port host port) ≡ unbracket host port
unfolding split_host_port
split_at_last host port h =
    rw (last_index-append host port colon h, split_host_port)
      (rw (take-append host (colon ∷ port), drop-append_left host port colon) refl)

starts-Lacks : (s : Text) → Lacks opening s → starts_with opening s ≡ false
unfolding starts_with count
starts-Lacks [] h = refl
starts-Lacks (x ∷ s) h = ground arith

length-snoc : (s : Text) (x : ℕ) → length (drop 1 (s ++ (x ∷ []))) ≡ length s
length-snoc [] x = refl
length-snoc (y ∷ s) x = length-append s (x ∷ []) ∙ omega arith

resolver : Resolver
resolver = record {
  split_host_port = split_host_port;
  join_host_port = with_port;
  parse_uint16 = λ s. if starts_with b'8' s then some 80 else some 0;
  parse_ip = λ s. some (127 ∷ 0 ∷ 0 ∷ 1 ∷ []);
  lookup_ip = λ s. none;
  client_config = λ s. none;
  exchange = λ host server. none;
}

resolver-SplitsPorts : SplitsPorts resolver
unfolding resolver unbracket starts_with
resolver-SplitsPorts = record {
  split_plain = λ host port h p no_colon port_no_colon.
      split_at_last host port port_no_colon ∙ ground (arith, starts-Lacks host h.no_opening);
  split_bracketed = λ host port h p port_no_colon.
      split_at_last (bracketed host) port port_no_colon
      ∙ ap (λ (s : Text). some (s, port))
          (ap (λ k. take k (host ++ (closing ∷ []))) (length-snoc host closing)
            ∙ take-append host (closing ∷ []));
  too_many_colons = λ host port h p port_no_colon many.
      split_at_last host port port_no_colon ∙ ground (arith, starts-Lacks host h.no_opening);
  parse_zero = refl;
}

-- The text "a" with the port "80".
resolve_addr-literal_example :
    (Lacks colon (b'a' ∷ [])
      → (resolve_addr resolver (b'a' ∷ []) [] ≡ some ((127 ∷ 0 ∷ 0 ∷ 1 ∷ []) ∷ [], 0))
        × (resolve_addr resolver (b'a' ∷ colon ∷ b'8' ∷ b'0' ∷ []) []
            ≡ some ((127 ∷ 0 ∷ 0 ∷ 1 ∷ []) ∷ [], 80)))
    × (resolve_addr resolver (opening ∷ b'a' ∷ closing ∷ []) []
        ≡ some ((127 ∷ 0 ∷ 0 ∷ 1 ∷ []) ∷ [], 0))
    × (resolve_addr resolver (opening ∷ b'a' ∷ closing ∷ colon ∷ b'8' ∷ b'0' ∷ []) []
        ≡ some ((127 ∷ 0 ∷ 0 ∷ 1 ∷ []) ∷ [], 80))
    × (1 < count ℕ_discrete colon (b'a' ∷ []) → resolve_addr resolver (b'a' ∷ []) [] ≡ none)
unfolding resolver starts_with count ℕ_discrete
resolve_addr-literal_example =
    resolve_addr-literal resolver resolver-SplitsPorts [] (b'a' ∷ []) (b'8' ∷ b'0' ∷ [])
      (127 ∷ 0 ∷ 0 ∷ 1 ∷ []) 80 (record { no_opening = refl; no_closing = refl })
      (record { no_opening = refl; no_closing = refl }) refl refl refl
