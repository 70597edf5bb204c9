-- ===== src/AgentState/Kinds.antt =====
-- The vocabulary of agent state kinds.
use context_fs.Base.{◌≡◌, refl, true, Option, none, some, ◌↔◌, arith, if_both, subst}
use context_fs.Base.Order.{Bytes, bytes_ord, same→eq}
use context_fs.Record.{newline}
use context_fs.Record.Lines.{LacksChar, lacks, lacks-LacksChar}
use context_fs.AgentState.{
  AgentStateKind, session, execution, tool_call, runtime_resource, external_handle, fs_link,
  runtime_snapshot, parse_agent_state_kind, agent_state_kind_label,
}

pub parse_agent_state_kind-agent_state_kind_label :
    (k : AgentStateKind) → parse_agent_state_kind (agent_state_kind_label k) ≡ some k
unfolding parse_agent_state_kind agent_state_kind_label
parse_agent_state_kind-agent_state_kind_label session = refl
parse_agent_state_kind-agent_state_kind_label execution = refl
parse_agent_state_kind-agent_state_kind_label tool_call = refl
parse_agent_state_kind-agent_state_kind_label runtime_resource = refl
parse_agent_state_kind-agent_state_kind_label external_handle = refl
parse_agent_state_kind-agent_state_kind_label fs_link = refl
parse_agent_state_kind-agent_state_kind_label runtime_snapshot = refl

label_lacks-newline : (k : AgentStateKind) → lacks newline (agent_state_kind_label k) ≡ true
unfolding agent_state_kind_label
label_lacks-newline k = ground arith

pub LacksChar-agent_state_kind_label :
    (k : AgentStateKind) → LacksChar newline (agent_state_kind_label k)
LacksChar-agent_state_kind_label k =
    lacks-LacksChar newline (agent_state_kind_label k) (label_lacks-newline k)

Names : Bytes → Option AgentStateKind → Type 0
Names text none = Unit {0}
Names text (some k) = text ≡ agent_state_kind_label k

parse_agent_state_kind-Names : (text : Bytes) → Names text (parse_agent_state_kind text)
unfolding parse_agent_state_kind agent_state_kind_label Names
parse_agent_state_kind-Names text = if_both (Names text) _ (same→eq text _) λ _.
    if_both (Names text) _ (same→eq text _) λ _. if_both (Names text) _ (same→eq text _) λ _.
      if_both (Names text) _ (same→eq text _) λ _. if_both (Names text) _ (same→eq text _) λ _.
        if_both (Names text) _ (same→eq text _) λ _. if_both (Names text) _ (same→eq text _) λ _. tt

-- A token is read as a kind exactly when it is the label of that kind.
pub parse_agent_state_kind_lem :
    (text : Bytes) (k : AgentStateKind)
    → (parse_agent_state_kind text ≡ some k) ↔ (text ≡ agent_state_kind_label k)
unfolding Names
parse_agent_state_kind_lem text k = (
  (λ e. subst (Names text) e (parse_agent_state_kind-Names text)),
  λ e. rw e (parse_agent_state_kind-agent_state_kind_label k),
)
