-- ===== src/Agent/Fingerprint/Laws.antt =====
-- What a fingerprint says of its event.
use pi_ops.Base.{
  String, str_eq, ◌||◌, any, List, [], ◌∷◌, map, ◌≡◌, refl, sym, ◌∙◌, ap, subst, if◌then◌else◌,
  if_cases,
}
use pi_ops.Base.JsonText.{Element, plain_text, stringify, stringify_inj}
use pi_ops.Protocol.{OpsEvent}
use pi_ops.Agent.NotificationConfig.{NotificationPolicyConfig}
use pi_ops.Agent.Events.{source_text}
use pi_ops.Agent.Fingerprint.{
  is_type, dimensions_of, string_attribute, Mapped, absent, mapped, recovery_type, canonical_type,
  type_of, canonical_source, type_specific_dimensions, compute_fingerprint, Version,
  inherited_names,
}

abbrev head_text : List Element → String
head_text (plain_text s ∷ _) = s
head_text _ = ""

abbrev rest_of : List Element → List Element
rest_of [] = []
rest_of (_ ∷ es) = es

plain_texts_inj : (xs ys : List String) → map plain_text xs ≡ map plain_text ys → xs ≡ ys
plain_texts_inj [] [] e = refl
plain_texts_inj [] (y ∷ ys) e = cc
plain_texts_inj (x ∷ xs) [] e = cc
plain_texts_inj (x ∷ xs) (y ∷ ys) e =
    let head : x ≡ y = ap head_text e in let rest = plain_texts_inj xs ys (ap rest_of e) in cc

-- Two events with one fingerprint, under whatever policies and versions, have the same source, node,
-- service and type, after a recovery is taken for its failure and a JVM crash for one of the application,
-- and the same dimensions of that type.
pub compute_fingerprint_inj :
    (v w : Version) (p q : NotificationPolicyConfig) (a b : OpsEvent)
    → compute_fingerprint v p a ≡ compute_fingerprint w q b
    → (canonical_source a ≡ canonical_source b)
      × (a.node_id ≡ b.node_id)
      × (a.service ≡ b.service)
      × (canonical_type a.type (recovery_type a.type)
          ≡ canonical_type b.type (recovery_type b.type))
      × (type_specific_dimensions a v p ≡ type_specific_dimensions b w q)
unfolding compute_fingerprint
compute_fingerprint_inj v w p q a b e =
    let rest = λ (x : OpsEvent) (d : List String).
      plain_text x.node_id ∷ plain_text x.service ∷ type_of x ∷ map plain_text d in
    let lists =
      stringify_inj (plain_text (canonical_source a)) (plain_text (canonical_source b))
        (rest a (type_specific_dimensions a v p)) (rest b (type_specific_dimensions b w q)) e in
    let second = ap rest_of lists in
    let third = ap rest_of second in
    let fourth = ap rest_of third in
    (
      ap head_text lists,
      ap head_text second,
      ap head_text third,
      cc,
      plain_texts_inj (type_specific_dimensions a v p) (type_specific_dimensions b w q)
          (ap rest_of fourth),
    )

-- The type that a recovery is mapped to is itself mapped to nothing.
abbrev Leads : Mapped → Type 0
Leads (mapped failure) = recovery_type failure ≡ absent
Leads _ = Unit

recovery_type-Leads : (type : String) → Leads (recovery_type type)
unfolding recovery_type
recovery_type-Leads type =
    if_cases Leads (str_eq type "health.recovered") (λ _. refl)
      (λ _.
        if_cases Leads (str_eq type "host.memory_recovered") (λ _. refl)
          (λ _.
            if_cases Leads (str_eq type "host.disk_recovered") (λ _. refl)
              (λ _.
                if_cases Leads (str_eq type "application.slow_sql_recovered") (λ _. refl)
                  (λ _.
                    if_cases Leads (str_eq type "__proto__") (λ _. tt)
                      (λ _.
                        if_cases Leads (any (str_eq type) inherited_names) (λ _. tt) (λ _. tt))))))

-- The fingerprint, by the type that the event is taken for.
abbrev fingerprint_with : Version → NotificationPolicyConfig → OpsEvent → Element → String
fingerprint_with v p event type = stringify (
    plain_text (
      if is_type "jvm.oom" type || is_type "jvm.stack_overflow" type
      then "application"
      else source_text event.source)
    ∷ plain_text event.node_id
    ∷ plain_text event.service
    ∷ type
    ∷ map plain_text (dimensions_of v p type event))

-- A recovery has the fingerprint of the failure that it ends, on the same source, node, service and
-- attributes.
pub compute_fingerprint-recovery :
    (v : Version) (p : NotificationPolicyConfig) (event : OpsEvent) (failure : String)
    → recovery_type event.type ≡ mapped failure
    → compute_fingerprint v p event ≡ compute_fingerprint v p (record event { type = failure })
unfolding compute_fingerprint canonical_source type_specific_dimensions string_attribute
compute_fingerprint-recovery v p event failure e =
    let taken : type_of event ≡ plain_text failure = ap (canonical_type event.type) e in
    let same : type_of (record event { type = failure }) ≡ plain_text failure =
      ap (canonical_type failure) (subst Leads e (recovery_type-Leads event.type)) in
    ap (fingerprint_with v p event) taken ∙ sym (ap (fingerprint_with v p event) same)
