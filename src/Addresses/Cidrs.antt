-- ===== src/Addresses/Cidrs.antt =====
-- net_transport.go: `ParseCIDRs`, and util.go: `combineErrors`. A network is its method `Contains`.
-- `parse` is `net.ParseCIDR` of the trimmed text, and `invalid` the message of the error for a text.
use mlist.Prelude.{
  ℕ, ◌≡◌, refl, ap, sym, ◌∙◌, List, [], ◌∷◌, ◌++◌, Option, none, some, arith, ◌==◌, if◌then◌else◌,
  append_assoc, length, append-nil, Option-cases, inl, inr,
}
use mlist.Addresses.Ports.{Text}

abbrev semicolon : ℕ
semicolon = b';'

-- The string builder: each message and a semicolon.
unfoldable pub write_errors : List Text → Text
write_errors [] = []
write_errors (e ∷ es) = e ++ (semicolon ∷ write_errors es)

-- `strings.TrimSuffix` of one byte.
unfoldable pub trim_suffix : ℕ → Text → Text
trim_suffix c [] = []
trim_suffix c (x ∷ []) = if x == c then [] else x ∷ []
trim_suffix c (x ∷ y ∷ s) = x ∷ trim_suffix c (y ∷ s)

-- `none` is nil, no error.
unfoldable pub combine_errors : List Text → Option Text
unfolding write_errors trim_suffix
combine_errors [] = none
combine_errors (e ∷ es) = some (trim_suffix semicolon (write_errors (e ∷ es)))

module _ {Net : Type 0} (parse : Text → Option Net) (invalid : Text → Text) where
  -- The loop, with the networks and the errors so far.
  unfoldable pub parse_loop : List Text → List Net → List Text → List Net × List Text
  parse_loop [] nets errs = (nets, errs)
  parse_loop (p ∷ ps) nets errs = elim (parse p) [
    | none ↦ parse_loop ps nets (errs ++ (invalid p ∷ []))
    | some net ↦ parse_loop ps (nets ++ (net ∷ [])) errs
  ]

  unfoldable pub parse_cidrs : List Text → List Net × Option Text
  unfolding parse_loop combine_errors
  parse_cidrs v = let (nets, errs) = parse_loop v [] [] in (nets, combine_errors errs)

  -- The networks that parse, and the messages of the texts that do not, in their order.
  abbrev pub parsed : List Text → List Net
  parsed [] = []
  parsed (p ∷ ps) = elim (parse p) [ none ↦ parsed ps | some net ↦ net ∷ parsed ps ]

  abbrev pub rejected : List Text → List Text
  rejected [] = []
  rejected (p ∷ ps) = elim (parse p) [ none ↦ invalid p ∷ rejected ps | some net ↦ rejected ps ]

  parse_loop-eq :
      (ps : List Text) (nets : List Net) (errs : List Text)
      → parse_loop ps nets errs ≡ (nets ++ parsed ps, errs ++ rejected ps)
  unfolding parse_loop
  parse_loop-eq [] nets errs = rw (append-nil nets, append-nil errs) refl
  parse_loop-eq (p ∷ ps) nets errs = elim (Option-cases (parse p)) [
    | inl bad ↦ ground (
      arith,
      parse_loop-eq ps nets (errs ++ (invalid p ∷ [])),
      append_assoc errs (invalid p ∷ []) (rejected ps),
    )
    | inr (net, good) ↦ ground (
      arith,
      parse_loop-eq ps (nets ++ (net ∷ [])) errs,
      append_assoc nets (net ∷ []) (parsed ps),
    )
  ]

-- The messages with a semicolon between two.
abbrev pub separated : List Text → Text
separated [] = []
separated (e ∷ []) = e
separated (e ∷ e' ∷ es) = e ++ (semicolon ∷ separated (e' ∷ es))

trim_suffix-append :
    (c x : ℕ) (s t : Text) → trim_suffix c (s ++ (x ∷ t)) ≡ s ++ trim_suffix c (x ∷ t)
unfolding trim_suffix
trim_suffix-append c x [] t = refl
trim_suffix-append c x (y ∷ []) t = refl
trim_suffix-append c x (y ∷ z ∷ s) t = ap (◌∷◌ y) (trim_suffix-append c x (z ∷ s) t)

trim_suffix-write_errors :
    (e : Text) (es : List Text) → trim_suffix semicolon (write_errors (e ∷ es)) ≡ separated (e ∷ es)
unfolding write_errors trim_suffix
trim_suffix-write_errors e [] = trim_suffix-append semicolon semicolon e [] ∙ rw (append-nil e)
trim_suffix-write_errors e (e' ∷ es) =
    let more = write_errors es in
    let last = trim_suffix semicolon (semicolon ∷ more) in
    let inner : e' ++ last ≡ separated (e' ∷ es) =
      sym (trim_suffix-append semicolon semicolon e' more) ∙ trim_suffix-write_errors e' es in
    trim_suffix-append semicolon semicolon e (e' ++ (semicolon ∷ more))
    ∙ ap (◌++◌ e)
        (trim_suffix-append semicolon semicolon (semicolon ∷ e') more ∙ ap (◌∷◌ semicolon) inner)

-- No error for no message.
abbrev pub message : List Text → Option Text
message [] = none
message (e ∷ es) = some (separated (e ∷ es))

combine_errors-eq : (errs : List Text) → combine_errors errs ≡ message errs
unfolding combine_errors
combine_errors-eq [] = refl
combine_errors-eq (e ∷ es) = ap some (trim_suffix-write_errors e es)

silent : (errs : List Text) → message errs ≡ none → errs ≡ []
silent [] e = refl
silent (m ∷ es) e = cc

module _ {Net : Type 0} (parse : Text → Option Net) (invalid : Text → Text) where
  rejected_none :
      (ps : List Text)
      → rejected parse invalid ps ≡ []
      → length (parsed parse invalid ps) ≡ length ps
  rejected_none [] e = refl
  rejected_none (p ∷ ps) e = ground (arith, rejected_none ps)

  -- `ParseCIDRs` gives the networks of the texts that parse, in their order, whatever else there is; its
  -- error has the messages of all the others, with a semicolon between two, and there is none only if
  -- each text gave a network.
  pub parse_cidrs_lem :
      (v : List Text)
      → ((parse_cidrs parse invalid v).0 ≡ parsed parse invalid v)
        × ((parse_cidrs parse invalid v).1 ≡ message (rejected parse invalid v))
        × ((parse_cidrs parse invalid v).1 ≡ none
            → length (parse_cidrs parse invalid v).0 ≡ length v)
  unfolding parse_cidrs
  parse_cidrs_lem v =
      let whole = parse_loop-eq parse invalid v [] [] in
      let errs = combine_errors-eq (rejected parse invalid v) in
      let nets_eq : (parse_cidrs parse invalid v).0 ≡ parsed parse invalid v = ground arith in
      let err_eq : (parse_cidrs parse invalid v).1 ≡ message (rejected parse invalid v) =
        ground arith in
      (
        nets_eq,
        err_eq,
        λ e.
            ap length nets_eq
            ∙ rejected_none v (silent (rejected parse invalid v) (sym err_eq ∙ e)),
      )
