-- ===== src/RunConfig/Generate/CloneScript.antt =====
-- The command of a clone step, in stepFromConfigStep of internal/runconfig/runconfig.go.
use Prim.Native.String.{◌++◌ as ◌<>◌, slice}
use Prim.Native.Nat.{◌/◌, ◌%◌}
use agola.Prelude.{
  ℕ, zero, suc, ◌+◌, ltb, String, List, [], ◌∷◌, ◌++◌, Option, none, some, if◌then◌else◌,
}
use agola.Config.{CloneStep}

-- strings.Join
unfoldable pub join_text : String → List String → String
join_text sep [] = ""
join_text sep (t ∷ []) = t
join_text sep (t ∷ t' ∷ ts) = t <> (sep <> join_text sep (t' ∷ ts))

abbrev digit : ℕ → String
digit n = slice "0123456789" n (n + 1)

unfoldable decimal_loop : ℕ → ℕ → String
decimal_loop zero n = ""
decimal_loop (suc fuel) n =
    let rest = decimal_loop fuel (n / 10) in if ltb n 10 then digit n else rest <> digit (n % 10)

-- The verb %d; each round takes a digit off.
unfoldable pub decimal : ℕ → String
unfolding decimal_loop
decimal n = decimal_loop (suc n) n

abbrev depth_option : Option ℕ → List String
depth_option none = []
depth_option (some n) = ("--depth " <> decimal n) ∷ []

unfoldable pub gen_clone_options : CloneStep → String
unfolding join_text decimal
gen_clone_options c =
    join_text " "
      (depth_option c.depth ++ (if c.recurse_submodules then "--recurse-submodules" ∷ [] else []))

-- The lines of the script before the clone options, and those after them.
abbrev lines_before : List String
lines_before =
    "" ∷ "set -x" ∷ "" ∷ "mkdir ~/.ssh" ∷ "chmod 700 ~/.ssh" ∷ "touch ~/.ssh/id_rsa"
    ∷ "chmod 600 ~/.ssh/id_rsa" ∷ "touch ~/.ssh/known_hosts" ∷ "chmod 600 ~/.ssh/known_hosts" ∷ ""
    ∷ "# Add public ssh host key" ∷ "if [ -n \"$AGOLA_SSHHOSTKEY\" ]; then"
    ∷ "    echo \"$AGOLA_SSHHOSTKEY\" >> ~/.ssh/known_hosts" ∷ "fi" ∷ ""
    ∷ "# Add repository deploy key" ∷ "(cat <<EOF > ~/.ssh/id_rsa" ∷ "$AGOLA_SSHPRIVKEY" ∷ "EOF"
    ∷ ")" ∷ "" ∷ "STRICT_HOST_KEY_CHECKING=\"yes\"" ∷ ""
    ∷ "if [ -n \"$AGOLA_SKIPSSHHOSTKEYCHECK\" ]; then" ∷ "\t# Disable git host key verification"
    ∷ "\tSTRICT_HOST_KEY_CHECKING=\"no\"" ∷ "fi" ∷ "" ∷ "(cat <<EOF > ~/.ssh/config"
    ∷ "Host $AGOLA_GIT_HOST" ∷ "\tHostName $AGOLA_GIT_HOST" ∷ "\tPort $AGOLA_GIT_PORT"
    ∷ "\tStrictHostKeyChecking ${STRICT_HOST_KEY_CHECKING}" ∷ "\tPasswordAuthentication no" ∷ ""
    ∷ "\tIgnoreUnknown PubkeyAcceptedKeyTypes,PubkeyAcceptedAlgorithms"
    ∷ "\tPubkeyAcceptedKeyTypes +ssh-rsa" ∷ "\tPubkeyAcceptedAlgorithms +ssh-rsa" ∷ "EOF" ∷ ")" ∷ ""
    ∷ "git clone " ∷ []

abbrev lines_after : List String
lines_after =
    " $AGOLA_REPOSITORY_URL ." ∷ "git fetch origin $AGOLA_GIT_REF" ∷ ""
    ∷ "if [ -n \"$AGOLA_GIT_COMMITSHA\" ]; then" ∷ "\tgit checkout $AGOLA_GIT_COMMITSHA" ∷ "else"
    ∷ "\tgit checkout FETCH_HEAD" ∷ "fi" ∷ "" ∷ []

unfoldable pub clone_command : CloneStep → String
unfolding gen_clone_options join_text
clone_command c = join_text "\n" lines_before <> (gen_clone_options c <> join_text "\n" lines_after)
