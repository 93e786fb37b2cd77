-- ===== src/Kinds.antt =====
-- The four kinds of components: the constants of pkg/hubregistry/types.go and
-- pkg/managed/managed.go, and the directory of each kind.
use forge_development_hub_cl.Base.{
  Bool, true, false, Option, none, some, List, [], ◌∷◌, Text, codes, text_eq, if◌then◌else◌,
}

abbrev pub kind_skill : Text
kind_skill = codes "skill"

abbrev pub kind_rule : Text
kind_rule = codes "rule"

abbrev pub kind_agent : Text
kind_agent = codes "agent"

abbrev pub kind_hook : Text
kind_hook = codes "hook"

abbrev pub all_kinds : List Text
all_kinds = kind_skill ∷ kind_rule ∷ kind_agent ∷ kind_hook ∷ []

-- The four kinds as data; any other text is no kind.
pub data Kind : Type 0 where
  skill rule agent hook : Kind

-- The case of a `switch` on a kind; `none` is the text of no kind.
unfoldable pub kind_of : Text → Option Kind
unfolding text_eq
kind_of s =
    if text_eq s kind_skill
    then some Kind.skill
    else if text_eq s kind_rule
    then some Kind.rule
    else if text_eq s kind_agent
    then some Kind.agent
    else if text_eq s kind_hook
    then some Kind.hook
    else none

abbrev pub dir_name : Kind → Text
dir_name Kind.skill = codes "skills"
dir_name Kind.rule = codes "rules"
dir_name Kind.agent = codes "agents"
dir_name Kind.hook = codes "hooks"

abbrev pub kind_name : Kind → Text
kind_name Kind.skill = kind_skill
kind_name Kind.rule = kind_rule
kind_name Kind.agent = kind_agent
kind_name Kind.hook = kind_hook

-- `kindOK`
unfoldable pub kind_ok : Text → Bool
unfolding kind_of
kind_ok s = elim (kind_of s) [ none ↦ false | some k ↦ true ]

-- `KindDir`: empty for no kind.
unfoldable pub kind_dir : Text → Text
unfolding kind_of
kind_dir s = elim (kind_of s) [ none ↦ [] | some k ↦ dir_name k ]
