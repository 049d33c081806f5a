-- ===== src/Gdt/Tests.antt =====
-- The segment descriptors of source/src/gdt.cpp at the arguments that the kernel passes.
use implementing_os_and_syst.Base.{◌+◌, ◌-◌, ◌*◌, ◌≡◌, ◌≤◌, refl, arith}
use implementing_os_and_syst.Gdt.{segment_descriptor, limit, encoded_limit, granularity}
use implementing_os_and_syst.Gdt.Roundtrip.{limit-segment_descriptor, effective_limit}

limit_of_code : limit (segment_descriptor 0 (64 * 1024 * 1024) 0x9A) ≡ 64 * 1024 * 1024 - 1
unfolding segment_descriptor limit encoded_limit granularity
limit_of_code = refl

limit-segment_descriptor_example :
    (limit (segment_descriptor 0 0x4000000 0x9A) ≡ effective_limit 0x4000000)
    × (limit (segment_descriptor 0 0x4000000 0x9A) ≤ 0x4000000)
    × (0x4000000 ≤ limit (segment_descriptor 0 0x4000000 0x9A) + 4095)
limit-segment_descriptor_example = limit-segment_descriptor 0 0x4000000 0x9A (omega arith)
