-- ===== src/Buffer/Keys.antt =====
-- sources/agent/src/buffer.h and buffer.cc: `BufferKey`, its hash, and `MakeBufferKey`.
pub mod Hash
pub mod Range
use volta.Prelude.{
  ℕ, ◌≡◌, ◌↔◌, ◌⊎◌, inl, inr, ◌∙◌, sym, Bool, true, false, ◌&&◌, Option, none, some, arith, ◌==◌,
  ==_iff, u8, u16, Bool-cases,
}
use volta.Metric.{Metric, DeviceId}

pub record BufferKey : Type 0 where
  pub metric_type : ℕ
  pub pci_domain : ℕ
  pub pci_bus : ℕ
  pub pci_device : ℕ
  pub pci_function : ℕ
  pub socket_index : ℕ
  pub core_index : ℕ
  pub ifindex : ℕ
  pub disk_major : ℕ
  pub disk_minor : ℕ

-- The defaulted `operator==`: field by field.
unfoldable pub key_eq : BufferKey → BufferKey → Bool
key_eq a b =
    (a.metric_type == b.metric_type
      && (a.pci_domain == b.pci_domain
          && (a.pci_bus == b.pci_bus
              && (a.pci_device == b.pci_device && a.pci_function == b.pci_function))))
    && (a.socket_index == b.socket_index
        && (a.core_index == b.core_index
            && (a.ifindex == b.ifindex
                && (a.disk_major == b.disk_major && a.disk_minor == b.disk_minor))))

-- `BufferKey{}` with its metric type set
abbrev bare_key : ℕ → BufferKey
bare_key type = record {
  metric_type = type;
  pci_domain = 0;
  pci_bus = 0;
  pci_device = 0;
  pci_function = 0;
  socket_index = 0;
  core_index = 0;
  ifindex = 0;
  disk_major = 0;
  disk_minor = 0;
}

-- The visitor of `MakeBufferKey`, with its narrowing casts.
visit_device : BufferKey → DeviceId → BufferKey
visit_device key (DeviceId.gpu domain bus device function) = record key {
  pci_domain = u16 domain;
  pci_bus = u8 bus;
  pci_device = u8 device;
  pci_function = u8 function;
}
visit_device key (DeviceId.cpu socket core) = record key {
  socket_index = u8 socket;
  core_index = u16 core;
}
visit_device key (DeviceId.net ifindex) = record key { ifindex = ifindex }
visit_device key (DeviceId.disk major minor) = record key { disk_major = major; disk_minor = minor }

key_for : ℕ → Option DeviceId → BufferKey
unfolding visit_device
key_for type none = bare_key type
key_for type (some device) = visit_device (bare_key type) device

unfoldable pub make_buffer_key : Metric → BufferKey
unfolding key_for
make_buffer_key metric = key_for metric.type metric.dev_id

pub eq_of_key_eq : (a b : BufferKey) → key_eq a b ≡ true → a ≡ b
unfolding key_eq
eq_of_key_eq a b h = ground arith

pub key_eq_self : (a : BufferKey) → key_eq a a ≡ true
unfolding key_eq
key_eq_self a = ground arith

key_eq_of_eq : (a b : BufferKey) → a ≡ b → key_eq a b ≡ true
key_eq_of_eq a b e = rw e (key_eq_self b)

pub key_eq_sym : (a b : BufferKey) → key_eq a b ≡ key_eq b a
key_eq_sym a b = elim (Bool-cases (key_eq a b)) [
  | inl e ↦ e ∙ sym (key_eq_of_eq b a (sym (eq_of_key_eq a b e)))
  | inr e ↦ elim (Bool-cases (key_eq b a)) [
    | inl f ↦ key_eq_of_eq a b (sym (eq_of_key_eq b a f)) ∙ sym f
    | inr f ↦ e ∙ sym f
  ]
]
