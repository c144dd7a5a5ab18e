-- ===== src/Text/HostPort.antt =====
-- Go's net.SplitHostPort and net.JoinHostPort, strings.TrimSuffix and strings.EqualFold.
use caddy_reverse_proxy.Common.{
  ℕ, Bool, ◌||◌, Option, none, some, [], ◌∷◌, ◌++◌, eqb, if◌then◌else◌,
}
use caddy_reverse_proxy.Text.{Text, codes, ◌==◌, to_lower, contains}

-- strings.EqualFold
unfoldable pub equal_fold : Text → Text → Bool
equal_fold s t = to_lower s == to_lower t

-- strings.TrimSuffix
unfoldable pub trim_suffix : Text → Text → Text
trim_suffix [] suffix = []
trim_suffix (c ∷ s) suffix = if (c ∷ s) == suffix then [] else c ∷ trim_suffix s suffix

abbrev push_left : ℕ → Option (Text × Text) → Option (Text × Text)
push_left c none = none
push_left c (some (s, t)) = some (c ∷ s, t)

-- The texts before and behind the first `d`.
unfoldable pub cut : ℕ → Text → Option (Text × Text)
cut d [] = none
cut d (c ∷ s) = let rest = cut d s in if eqb c d then some ([], s) else push_left c rest

-- The host without brackets and the port behind its colon, neither with a bracket.
abbrev plain_parts : Option (Text × Text) → Option (Text × Text)
plain_parts none = none
plain_parts (some (host, port)) =
    if contains b':' port
      || contains b'[' host
      || contains b']' host
      || contains b'[' port
      || contains b']' port
    then none
    else some (host, port)

-- What stands behind the bracket that closes a host: a colon and the port.
abbrev bracket_parts : Option (Text × Text) → Option (Text × Text)
bracket_parts none = none
bracket_parts (some (host, [])) = none
bracket_parts (some (host, c ∷ port)) =
    if contains b':' port || contains b'[' host || contains b'[' port || contains b']' port
    then none
    else if eqb c b':'
    then some (host, port)
    else none

-- net.SplitHostPort; `none` for its errors.
unfoldable pub split_host_port : Text → Option (Text × Text)
unfolding cut
split_host_port [] = none
split_host_port (c ∷ s) =
    if eqb c b'[' then bracket_parts (cut b']' s) else plain_parts (cut b':' (c ∷ s))

-- net.JoinHostPort
unfoldable pub join_host_port : Text → Text → Text
join_host_port host port =
    if contains b':' host
    then codes "[" ++ host ++ codes "]:" ++ port
    else host ++ codes ":" ++ port
