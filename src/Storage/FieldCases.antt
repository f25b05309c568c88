-- ===== src/Storage/FieldCases.antt =====
-- To prove a statement about every filter field: the thirteen names, and any other text.
use consul_timeline.Common.{◌≡◌, sym, subst, false, inl, inr, Bool-cases}
use consul_timeline.Common.Text.{Text, text_beq, text_beq_iff}
use consul_timeline.Storage.Query.{
  field_datacenter, field_service, field_node, field_check, field_kind, field_tag, field_team,
  field_app, field_version, field_check_type, field_to, field_from, field_healthy,
}

-- A text that is none of the thirteen field names.
pub record IsUnknown (f : Text) : Type 0 where
  pub datacenter : text_beq f field_datacenter ≡ false
  pub service : text_beq f field_service ≡ false
  pub node : text_beq f field_node ≡ false
  pub check : text_beq f field_check ≡ false
  pub team : text_beq f field_team ≡ false
  pub app : text_beq f field_app ≡ false
  pub version : text_beq f field_version ≡ false
  pub check_type : text_beq f field_check_type ≡ false
  pub kind : text_beq f field_kind ≡ false
  pub tag : text_beq f field_tag ≡ false
  pub to : text_beq f field_to ≡ false
  pub from : text_beq f field_from ≡ false
  pub healthy : text_beq f field_healthy ≡ false

split_text {ℓ} : (P : Text → Type ℓ) (l f : Text) → P l → (text_beq f l ≡ false → P f) → P f
split_text P l f here elsewhere = elim (Bool-cases (text_beq f l)) [
  | inl e ↦ subst P (sym ((text_beq_iff f l).0 e)) here
  | inr e ↦ elsewhere e
]

pub by_field {ℓ} :
    (P : Text → Type ℓ)
    → P field_datacenter
    → P field_service
    → P field_node
    → P field_check
    → P field_team
    → P field_app
    → P field_version
    → P field_check_type
    → P field_kind
    → P field_tag
    → P field_to
    → P field_from
    → P field_healthy
    → ((f : Text) → IsUnknown f → P f)
    → (f : Text) → P f
by_field P on_datacenter on_service on_node on_check on_team on_app on_version on_check_type on_kind
      on_tag on_to on_from on_healthy unknown f =
    split_text P field_datacenter f on_datacenter λ is_datacenter.
      split_text P field_service f on_service λ is_service.
        split_text P field_node f on_node λ is_node. split_text P field_check f on_check λ is_check.
          split_text P field_team f on_team λ is_team. split_text P field_app f on_app λ is_app.
            split_text P field_version f on_version λ is_version.
              split_text P field_check_type f on_check_type λ is_check_type.
                split_text P field_kind f on_kind λ is_kind.
                  split_text P field_tag f on_tag λ is_tag. split_text P field_to f on_to λ is_to.
                    split_text P field_from f on_from λ is_from.
                      split_text P field_healthy f on_healthy λ is_healthy. unknown f record {
                        datacenter = is_datacenter;
                        service = is_service;
                        node = is_node;
                        check = is_check;
                        team = is_team;
                        app = is_app;
                        version = is_version;
                        check_type = is_check_type;
                        kind = is_kind;
                        tag = is_tag;
                        to = is_to;
                        from = is_from;
                        healthy = is_healthy;
                      }
