-- ===== src/Platform/Detector/Scan.antt =====
-- What the detector reads of the files as the system writes them.
use volta.Prelude.{
  ℕ, ◌+◌, ◌-◌, ◌≡◌, refl, ap, ◌∙◌, true, false, some, List, [], ◌∷◌, ◌++◌, arith, Text, text, All,
  length, length-append, take, get_or, take-append, take_all, starts_with, ltb,
}
use volta.Platform.Detector.{
  CpuVendor, CpuInfo, default_cpu, find_text, has_text, vendor_of, model_of, scan_cpuinfo, unquote,
  pretty_name, detect,
}

-- A value between double quotes.
abbrev pub quoted : Text → Text
quoted v = b'"' ∷ (v ++ b'"' ∷ [])

get_or_end : (v : Text) (c : ℕ) → get_or (v ++ c ∷ []) (length v) 0 ≡ c
get_or_end [] c = refl
get_or_end (x ∷ v) c = get_or_end v c

unquote-quoted : (v : Text) → unquote (quoted v) ≡ v
unquote-quoted v =
    let longer : length (v ++ b'"' ∷ []) ≡ length v + 1 = length-append v (b'"' ∷ []) in
    ground (
      arith,
      longer,
      get_or_end v b'"',
      ap (λ n. get_or (v ++ b'"' ∷ []) n 0)
          (let e : length (v ++ b'"' ∷ []) - 1 ≡ length v = omega (arith, longer) in e),
      ap (λ n. take n (v ++ b'"' ∷ []))
          (let e : length (v ++ b'"' ∷ []) - 1 ≡ length v = omega (arith, longer) in e),
      take-append (length v) v (b'"' ∷ []),
      take_all (length v) v,
    )

pretty_name-quoted :
    (before after : List Text) (v : Text)
    → All (λ line. starts_with line (text "PRETTY_NAME=") ≡ false) before
    → pretty_name (before ++ (text "PRETTY_NAME=" ++ quoted v) ∷ after) ≡ v
unfolding pretty_name
pretty_name-quoted [] after v h = unquote-quoted v
pretty_name-quoted (line ∷ before) after v h =
    ground (arith, h.0, pretty_name-quoted before after v h.1)

-- A line of /proc/cpuinfo that says nothing of the vendor and the model.
abbrev pub IsPlain : Text → Type 0
IsPlain line =
    (has_text (text "vendor_id") line ≡ false) × (has_text (text "model name") line ≡ false)

-- The two lines that are read.
abbrev pub vendor_line : Text → Text
vendor_line id = text "vendor_id" ++ 9 ∷ text ": " ++ id

abbrev pub model_line : Text → Text
model_line name = text "model name" ++ 9 ∷ text ": " ++ name

scan_cpuinfo_plain :
    (plain lines : List Text) (cpu : CpuInfo)
    → All IsPlain plain
    → scan_cpuinfo (plain ++ lines) cpu ≡ scan_cpuinfo lines cpu
unfolding scan_cpuinfo vendor_of
scan_cpuinfo_plain [] lines cpu h = refl
scan_cpuinfo_plain (line ∷ plain) lines cpu h =
    ground (arith, h.0.0, h.0.1, scan_cpuinfo_plain plain lines cpu h.1)

has_model : (name : Text) → has_text (text "model name") (model_line name) ≡ true
unfolding find_text
has_model name = refl

has_colon : (name : Text) → find_text (text ":") (model_line name) ≡ some 11
unfolding find_text
has_colon name = refl

model_of-model_line :
    (name : Text) (cpu : CpuInfo)
    → model_of (model_line name) cpu ≡ some (record cpu { model_name = name })
unfolding model_of
model_of-model_line name cpu =
    let enough : ltb (length (model_line name)) 13 ≡ false = ground arith in
    ground (arith, has_colon name, enough)

scan_cpuinfo_model :
    (name : Text) (after : List Text) (cpu : CpuInfo)
    → has_text (text "vendor_id") (model_line name) ≡ false
    → scan_cpuinfo (model_line name ∷ after) cpu ≡ some (record cpu { model_name = name })
unfolding scan_cpuinfo vendor_of model_of
scan_cpuinfo_model name after cpu h = rw (has_model name, h) (model_of-model_line name cpu)

-- The identification that the processors of a vendor give.
abbrev pub id_of : CpuVendor → Text
id_of CpuVendor.intel = text "GenuineIntel"
id_of CpuVendor.amd = text "AuthenticAMD"
id_of CpuVendor.unknown = text "CentaurHauls"

scan_cpuinfo_vendor :
    (vendor : CpuVendor) (lines : List Text)
    → scan_cpuinfo (vendor_line (id_of vendor) ∷ lines) default_cpu
      ≡ scan_cpuinfo lines (record default_cpu { vendor = vendor })
unfolding scan_cpuinfo vendor_of find_text
scan_cpuinfo_vendor CpuVendor.intel lines = refl
scan_cpuinfo_vendor CpuVendor.amd lines = refl
scan_cpuinfo_vendor CpuVendor.unknown lines = refl

-- A machine whose /etc/os-release has `PRETTY_NAME="system"`, with no such line before, and whose
-- /proc/cpuinfo names the vendor and then the model, with no other line of either before: the
-- detection ends without an exception, and gives the host's name, the system's without its quotes,
-- the vendor, and the model, whatever follows these lines. The model's line has no "vendor_id".
pub detect_lem :
    (host system name : Text) (vendor : CpuVendor)
    (os_before os_after cpu_before cpu_between cpu_after : List Text)
    → All (λ line. starts_with line (text "PRETTY_NAME=") ≡ false) os_before
    → All IsPlain cpu_before
    → All IsPlain cpu_between
    → has_text (text "vendor_id") (model_line name) ≡ false
    → detect
        (some host)
        (some (os_before ++ (text "PRETTY_NAME=" ++ quoted system) ∷ os_after))
        (cpu_before ++ vendor_line (id_of vendor) ∷ (cpu_between ++ model_line name ∷ cpu_after))
      ≡ some (record {
        hostname = host;
        os_version = system;
        kernel_version = [];
        total_ram_bytes = 0;
        cpu = record default_cpu { vendor = vendor; model_name = name };
        gpus = [];
      })
unfolding detect
detect_lem host system name vendor os_before os_after cpu_before cpu_between cpu_after os plain
      plain' one =
    ground (arith, scanned, pretty_name-quoted os_before os_after system os)
  where
    scanned :
        scan_cpuinfo
          (cpu_before ++ vendor_line (id_of vendor) ∷ (cpu_between ++ model_line name ∷ cpu_after))
          default_cpu
        ≡ some (record default_cpu { vendor = vendor; model_name = name })
    scanned =
        scan_cpuinfo_plain cpu_before _ default_cpu plain
        ∙ scan_cpuinfo_vendor vendor _
        ∙ scan_cpuinfo_plain cpu_between _ (record default_cpu { vendor = vendor }) plain'
        ∙ scan_cpuinfo_model name cpu_after (record default_cpu { vendor = vendor }) one
