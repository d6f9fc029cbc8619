-- ===== src/Contract/Monotone.antt =====
-- The facts of a history in longer histories.
use namespace_class.GroupVersionKind.{GroupVersionKind}
use namespace_class.Json.{Fields}
use namespace_class.Api.{Namespace, NamespaceClassBinding, ResourceRef}
use namespace_class.Policy.{Policy}
use namespace_class.Libraries.{Libraries}
use namespace_class.Cluster.Safety.{History, Extends, here, later}
use namespace_class.Contract.{Seen, Shown, Resolved, Guarded, Released, Gone, Free, Ready}

pub Seen-Extends :
    {namespace : Namespace} {g h : History} → Extends g h → Seen namespace g → Seen namespace h
Seen-Extends here s = s
Seen-Extends (later q r e) s = Seen.earlier q r (Seen-Extends e s)

pub Shown-Extends :
    {b : NamespaceClassBinding} {g h : History} → Extends g h → Shown b g → Shown b h
Shown-Extends here s = s
Shown-Extends (later q r e) s = Shown.earlier q r (Shown-Extends e s)

pub Resolved-Extends : {g h : History} → Extends g h → Resolved g → Resolved h
Resolved-Extends here s = s
Resolved-Extends (later q r e) s = Resolved.earlier q r (Resolved-Extends e s)

pub Guarded-Extends : {g h : History} → Extends g h → Guarded g → Guarded h
Guarded-Extends here s = s
Guarded-Extends (later q r e) s = Guarded.earlier q r (Guarded-Extends e s)

pub Released-Extends : {g h : History} → Extends g h → Released g → Released h
Released-Extends here s = s
Released-Extends (later q r e) s = Released.earlier q r (Released-Extends e s)

module _ (lib : Libraries) where
  pub Gone-Extends :
      {ref : ResourceRef} {g h : History} → Extends g h → Gone lib ref g → Gone lib ref h
  Gone-Extends here s = s
  Gone-Extends (later q r e) s = Gone.earlier q r (Gone-Extends e s)

  pub Free-Extends :
      {owner : Namespace} {kind : GroupVersionKind} {namespace name : _} {g h : History}
      → Extends g h
      → Free lib owner kind namespace name g
      → Free lib owner kind namespace name h
  Free-Extends here s = s
  Free-Extends (later q r e) s = Free.earlier q r (Free-Extends e s)

  pub Ready-Extends :
      (policy : Policy) {owner : Namespace} {object : Fields} {g h : History}
      → Extends g h
      → Ready lib policy owner object g
      → Ready lib policy owner object h
  Ready-Extends policy e r = record {
    permitted = r.permitted;
    marked = r.marked;
    free = Free-Extends e r.free;
  }
