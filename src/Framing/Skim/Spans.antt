-- ===== src/Framing/Skim/Spans.antt =====
-- Each skim consumes a span that stands by itself.
use mls_go.Prelude.{◌==◌, unknown_proposal, invalid_presence, invalid_psk_type}
use mls_go.Syntax.Format.Opaque.{opaque-IsFormat}
use mls_go.Syntax.Format.Scalars.{uint8-IsFormat, uint16-IsFormat, uint32-IsFormat, uint64-IsFormat}
use mls_go.Syntax.Format.Vector.{vector-IsStrict}
use mls_go.Tree.LeafNode.{leaf_node-IsStrict}
use mls_go.Tree.Extension.{extension-IsStrict}
use mls_go.Tree.UpdatePath.{update_path-IsStrict}
use mls_go.Framing.Skim.{skim_commit, skim_key_package, skim_pre_shared_key_id, skim_proposal}
use mls_go.Framing.Skim.Rules.{
  IsSkim, IsSkim-done, IsSkim-refused, IsSkim-field, IsSkim-then, IsSkim-if,
}

pub skim_commit-IsSkim : IsSkim skim_commit
unfolding skim_commit
skim_commit-IsSkim = IsSkim-field opaque-IsFormat λ proposals.
    IsSkim-field uint8-IsFormat λ present. IsSkim-if (present == 0) IsSkim-done (
      IsSkim-if (present == 1) (IsSkim-field update_path-IsStrict.format (λ path. IsSkim-done))
        (IsSkim-refused invalid_presence (λ q. cc)))

pub skim_key_package-IsSkim : IsSkim skim_key_package
unfolding skim_key_package
skim_key_package-IsSkim = IsSkim-field uint16-IsFormat λ version.
    IsSkim-field uint16-IsFormat λ cipher_suite. IsSkim-field opaque-IsFormat λ init_key.
      IsSkim-field leaf_node-IsStrict.format λ leaf_node.
        IsSkim-field (vector-IsStrict extension-IsStrict).format
          λ extensions. IsSkim-field opaque-IsFormat λ signature. IsSkim-done

pub skim_pre_shared_key_id-IsSkim : IsSkim skim_pre_shared_key_id
unfolding skim_pre_shared_key_id
skim_pre_shared_key_id-IsSkim = IsSkim-field uint8-IsFormat λ t.
    IsSkim-then
      (IsSkim-if (t == 1) (IsSkim-field opaque-IsFormat (λ psk_id. IsSkim-done)) (
        IsSkim-if (t == 2)
          (IsSkim-field uint8-IsFormat λ usage.
            IsSkim-field opaque-IsFormat
              λ psk_group_id. IsSkim-field uint64-IsFormat λ psk_epoch. IsSkim-done)
          (IsSkim-refused invalid_psk_type (λ q. cc))))
      (IsSkim-field opaque-IsFormat (λ psk_nonce. IsSkim-done))

pub skim_proposal-IsSkim : IsSkim skim_proposal
unfolding skim_proposal
skim_proposal-IsSkim = IsSkim-field uint16-IsFormat λ pt.
    IsSkim-if (pt == 1) skim_key_package-IsSkim (
      IsSkim-if (pt == 2) (IsSkim-field leaf_node-IsStrict.format (λ leaf_node. IsSkim-done)) (
        IsSkim-if (pt == 3) (IsSkim-field uint32-IsFormat (λ removed. IsSkim-done)) (
          IsSkim-if (pt == 4) skim_pre_shared_key_id-IsSkim (
            IsSkim-if (pt == 5)
              (IsSkim-field opaque-IsFormat λ group_id. IsSkim-field uint16-IsFormat λ version.
                IsSkim-field uint16-IsFormat
                  λ cipher_suite. IsSkim-field opaque-IsFormat λ extensions. IsSkim-done)
              (IsSkim-if (pt == 6) (IsSkim-field opaque-IsFormat (λ kem_output. IsSkim-done)) (
                IsSkim-if (pt == 7) (IsSkim-field opaque-IsFormat (λ extensions. IsSkim-done))
                  (IsSkim-refused unknown_proposal (λ q. cc))))))))
