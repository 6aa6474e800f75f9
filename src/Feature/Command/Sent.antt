-- ===== src/Feature/Command/Sent.antt =====
-- do_sfeatures: what is asked of each feature.
