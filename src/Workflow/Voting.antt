-- ===== src/Workflow/Voting.antt =====
-- One vote for each voter: `canUserActOnStep` and `handleVoteStep` of src/proposals/workflow.service.ts.
